-- ===== src/EventStream/Boundary.antt =====
-- About eventStreamBoundary of eventstream.go, next to decodeEventStreamFrames.
use gateway_controllers.Prelude.{
  ◌≡◌, refl, ap, ◌∙◌, ℕ, zero, suc, ◌+◌, ◌-◌, ◌≤◌, List, [], ◌∷◌, ◌++◌, Bool, false, some, ltb,
  length, drop, drop-drop, arith,
}
use gateway_controllers.EventStream.{
  Bytes, EventStreamFrame, frame_incomplete, decode_one_frame, decode_loop,
  decode_event_stream_frames, boundary_loop, event_stream_boundary,
}
use gateway_controllers.EventStream.Stream.{frame_cases}

-- Whether these bytes are a partial frame, as decodeOneFrame says.
abbrev pub is_partial : Bytes → Bool
is_partial xs = elim (decode_one_frame xs) [
  | some (f, n, frame_incomplete) ↦ ltb 0 (length xs)
  | _ ↦ false
]

drop_none : (k : ℕ) (xs : Bytes) → k ≡ 0 → drop k xs ≡ xs
drop_none k xs e = rw e refl

boundary_loop_lem :
    (k : ℕ) (xs : Bytes) (fs gs : List EventStreamFrame) (off n : ℕ) (ok : Bool)
    → decode_loop k xs fs off ≡ some (gs, n, ok)
    → (off ≤ n) × (boundary_loop k xs off ≡ some (n, is_partial (drop (n - off) xs), ok))
unfolding decode_loop boundary_loop
boundary_loop_lem zero xs fs gs off n ok e = cc
boundary_loop_lem (suc k) xs fs gs off n ok e =
    frame_cases
      ((off ≤ n) × (boundary_loop (suc k) xs off ≡ some (n, is_partial (drop (n - off) xs), ok))) xs
      (λ f len a b h _. ground (
        arith,
        h,
        boundary_loop_lem k (drop len xs) (fs ++ (f ∷ [])) gs (off + len) n ok,
        drop-drop (n - (off + len)) len xs,
      ))
      (λ h. ground (arith, h, drop_none (n - off) xs))
      (λ a h. ground (arith, h, drop_none (n - off) xs))

-- Where decoding consumes n bytes, eventStreamBoundary returns n and the same flag, and says that
-- a partial frame trails exactly where the bytes after these n are not none and decodeOneFrame
-- calls them incomplete.
pub boundary-decode :
    (xs : Bytes) (fs : List EventStreamFrame) (n : ℕ) (ok : Bool)
    → decode_event_stream_frames xs ≡ some (fs, n, ok)
    → event_stream_boundary xs ≡ some (n, is_partial (drop n xs), ok)
unfolding decode_event_stream_frames event_stream_boundary
boundary-decode xs fs n ok e =
    (boundary_loop_lem (suc (length xs)) xs [] fs 0 n ok e).1
    ∙ ap (λ k. some (n, is_partial (drop k xs), ok)) (omega arith)
