-- ===== src/EventStream/Stream.antt =====
-- About decodeEventStreamFrames of eventstream.go: whole streams, and streams in pieces.
use gateway_controllers.Prelude.{
  ◌≡◌, refl, ap, sym, ◌∙◌, ℕ, zero, suc, ◌+◌, ◌*◌, ◌≤◌, ◌<◌, List, [], ◌∷◌, ◌++◌, Bool, true, false,
  ◌||◌, Option, none, some, ltb, length, drop, length-append, length-drop, drop-append, drop-drop,
  arith,
}
use mathlib.Core.List.{append_assoc, append-nil}
use gateway_controllers.EventStream.{
  Bytes, EventStreamFrame, FrameStatus, frame_ok, frame_incomplete, frame_invalid, uint32,
  empty_frame, decode_one_frame, decode_loop, decode_event_stream_frames,
}
use gateway_controllers.EventStream.Frames.{
  Reads, reads_ok, reads_incomplete, reads_invalid, one_frame-Reads,
}

abbrev pub Decoded : Type 0
Decoded = List EventStreamFrame × ℕ × Bool

-- What a loop returns that has `frames` and `offset` already.
unfoldable pub after : List EventStreamFrame → ℕ → Option Decoded → Option Decoded
after frames offset none = none
after frames offset (some (more, n, ok)) = some (frames ++ more, offset + n, ok || ltb 0 offset)

after-after :
    (fs gs : List EventStreamFrame) (n m : ℕ) (r : Option Decoded)
    → after (fs ++ gs) (n + m) r ≡ after fs n (after gs m r)
unfolding after
after-after fs gs n m none = refl
after-after fs gs n m (some (hs, k, ok)) = ground (arith, append_assoc fs gs hs)

after_nil : (r : Option Decoded) → after [] 0 r ≡ r
unfolding after
after_nil none = refl
after_nil (some (hs, k, true)) = ground arith
after_nil (some (hs, k, false)) = ground arith

after_empty :
    (fs : List EventStreamFrame) (off : ℕ) (ok : Bool)
    → after fs off (some ([], 0, ok)) ≡ some (fs, off, ok || ltb 0 off)
unfolding after
after_empty fs off ok = ground (arith, append-nil fs)

-- One round of the loop, at each of the ways in which a frame is read.
loop_round :
    (fuel : ℕ) (xs : Bytes) (fs : List EventStreamFrame) (off : ℕ) (f : EventStreamFrame) (n : ℕ)
    → decode_one_frame xs ≡ some (f, n, frame_ok)
    → decode_loop (suc fuel) xs fs off ≡ decode_loop fuel (drop n xs) (fs ++ (f ∷ [])) (off + n)
unfolding decode_loop
loop_round fuel xs fs off f n e = rw (e, decode_loop) refl

loop_incomplete :
    (fuel : ℕ) (xs : Bytes) (fs : List EventStreamFrame) (off : ℕ)
    → decode_one_frame xs ≡ some (empty_frame, 0, frame_incomplete)
    → decode_loop (suc fuel) xs fs off ≡ some (fs, off, true)
unfolding decode_loop
loop_incomplete fuel xs fs off e = rw (e, decode_loop) refl

loop_invalid :
    (fuel : ℕ) (xs : Bytes) (fs : List EventStreamFrame) (off : ℕ)
    → decode_one_frame xs ≡ some (empty_frame, 0, frame_invalid)
    → decode_loop (suc fuel) xs fs off ≡ some (fs, off, ltb 0 off)
unfolding decode_loop
loop_invalid fuel xs fs off e = rw (e, decode_loop) refl

-- The cases of a frame, with what they say of it, for a goal about the bytes.
pub frame_cases {ℓ} :
    (P : Type ℓ) (xs : Bytes)
    → ((f : EventStreamFrame) (n : ℕ)
        → 16 ≤ n
        → n ≤ length xs
        → decode_one_frame xs ≡ some (f, n, frame_ok)
        → ((more : Bytes) → decode_one_frame (xs ++ more) ≡ some (f, n, frame_ok))
        → P)
    → (decode_one_frame xs ≡ some (empty_frame, 0, frame_incomplete) → P)
    → (12 ≤ length xs → decode_one_frame xs ≡ some (empty_frame, 0, frame_invalid) → P)
    → P
frame_cases P xs whole partial bad = go _ (one_frame-Reads xs) refl
  where
    go :
        (r : Option (EventStreamFrame × ℕ × FrameStatus)) → Reads xs r → decode_one_frame xs ≡ r → P
    go r (reads_ok f a b more) e = whole f (uint32 xs) a b e more
    go r reads_incomplete e = partial e
    go r (reads_invalid a) e = bad a e

-- The fuel does not matter, and what the loop has already is put before what it finds.
loop_after :
    (k g : ℕ) (xs : Bytes) (fs : List EventStreamFrame) (off : ℕ)
    → length xs < k
    → length xs < g
    → decode_loop k xs fs off ≡ after fs off (decode_loop g xs [] 0)
loop_after zero g xs fs off h l = absurd (omega arith)
loop_after (suc k) zero xs fs off h l = absurd (omega arith)
loop_after (suc k) (suc g) xs fs off h l =
    frame_cases (decode_loop (suc k) xs fs off ≡ after fs off (decode_loop (suc g) xs [] 0)) xs
      (λ f n a b e _.
        let shorter : length (drop n xs) < length xs = omega (arith, length-drop {0} n xs) in
        loop_round k xs fs off f n e
        ∙ loop_after k g (drop n xs) (fs ++ (f ∷ [])) (off + n) (omega arith) (omega arith)
        ∙ after-after fs (f ∷ []) off n (decode_loop g (drop n xs) [] 0)
        ∙ ap (after fs off) (
            sym (
              loop_round g xs [] 0 f n e
              ∙ ap (λ m. decode_loop g (drop n xs) (f ∷ []) m) (omega arith)
              ∙ loop_after g g (drop n xs) (f ∷ []) n (omega arith) (omega arith))))
      (λ e.
        loop_incomplete k xs fs off e
        ∙ sym (ap (after fs off) (loop_incomplete g xs [] 0 e) ∙ after_empty fs off true))
      (λ _ e.
        loop_invalid k xs fs off e
        ∙ sym (ap (after fs off) (loop_invalid g xs [] 0 e) ∙ after_empty fs off (ltb 0 0)))

-- The same for whole streams.
pub decode_round :
    (xs : Bytes) (f : EventStreamFrame) (n : ℕ)
    → 16 ≤ n
    → n ≤ length xs
    → decode_one_frame xs ≡ some (f, n, frame_ok)
    → decode_event_stream_frames xs ≡ after (f ∷ []) n (decode_event_stream_frames (drop n xs))
unfolding decode_event_stream_frames
decode_round xs f n a b e =
    loop_round (length xs) xs [] 0 f n e
    ∙ ap (λ m. decode_loop (length xs) (drop n xs) (f ∷ []) m) (omega arith)
    ∙ loop_after (length xs) _ (drop n xs) (f ∷ []) n (omega (arith, length-drop {0} n xs))
        (omega arith)

decode_incomplete :
    (xs : Bytes)
    → decode_one_frame xs ≡ some (empty_frame, 0, frame_incomplete)
    → decode_event_stream_frames xs ≡ some ([], 0, true)
unfolding decode_event_stream_frames
decode_incomplete xs e = loop_incomplete (length xs) xs [] 0 e

decode_invalid :
    (xs : Bytes)
    → decode_one_frame xs ≡ some (empty_frame, 0, frame_invalid)
    → decode_event_stream_frames xs ≡ some ([], 0, false)
unfolding decode_event_stream_frames
decode_invalid xs e = loop_invalid (length xs) xs [] 0 e

-- What decoding the bytes gives, and how it goes on when more bytes come.
record Chunk (xs ys : Bytes) : Type 0 where
  frames : List EventStreamFrame
  consumed : ℕ
  ok : Bool
  result : decode_event_stream_frames xs ≡ some (frames, consumed, ok)
  within : consumed ≤ length xs
  wide : 16 * length frames ≤ consumed
  goes_on :
      decode_event_stream_frames (xs ++ ys)
      ≡ after frames consumed (decode_event_stream_frames (drop consumed xs ++ ys))

stopped : (xs ys : Bytes) (b : Bool) → decode_event_stream_frames xs ≡ some ([], 0, b) → Chunk xs ys
stopped xs ys b e = record {
  frames = [];
  consumed = 0;
  ok = b;
  result = e;
  within = omega arith;
  wide = omega arith;
  goes_on = sym (after_nil _);
}

after-Chunk :
    (xs ys : Bytes) (f : EventStreamFrame) (n : ℕ)
    → 16 ≤ n
    → n ≤ length xs
    → decode_one_frame xs ≡ some (f, n, frame_ok)
    → decode_one_frame (xs ++ ys) ≡ some (f, n, frame_ok)
    → Chunk (drop n xs) ys
    → Chunk xs ys
unfolding after
after-Chunk xs ys f n a b e e' c = record {
  frames = f ∷ c.frames;
  consumed = n + c.consumed;
  ok = c.ok || ltb 0 n;
  result = decode_round xs f n a b e ∙ rw c.result refl;
  within = omega (arith, c.within, length-drop {0} n xs);
  wide = omega (arith, c.wide);
  goes_on =
      decode_round (xs ++ ys) f n a (omega (arith, length-append {0} xs ys)) e'
      ∙ rw (drop-append n xs ys b) (
          rw c.goes_on
            (rw (drop-drop c.consumed n xs) (sym (after-after (f ∷ []) c.frames n c.consumed _))));
}

chunk : (k : ℕ) (xs ys : Bytes) → length xs < k → Chunk xs ys
chunk zero xs ys h = absurd (omega arith)
chunk (suc k) xs ys h =
    frame_cases (Chunk xs ys) xs
      (λ f n a b e e'.
        after-Chunk xs ys f n a b e (e' ys)
          (chunk k (drop n xs) ys (omega (arith, length-drop {0} n xs))))
      (λ e. stopped xs ys true (decode_incomplete xs e))
      (λ _ e. stopped xs ys false (decode_invalid xs e))

-- Decoding ends for all bytes: it consumes at most the bytes that are there, at least 16 for each
-- frame.
pub decode_total :
    (xs : Bytes)
    → (frames : List EventStreamFrame) × (consumed : ℕ) × (ok : Bool) × (decode_event_stream_frames
          xs
        ≡ some (frames, consumed, ok))
      × (consumed ≤ length xs)
      × (16 * length frames ≤ consumed)
decode_total xs =
    let c = chunk (suc (length xs)) xs [] (omega arith) in
    (c.frames, c.consumed, c.ok, c.result, c.within, c.wide)

decoded_twice :
    (xs ys : Bytes) (fs fs' gs : List EventStreamFrame) (n n' m : ℕ) (b ok ok' : Bool)
    → ◌≡◌ {A = Option Decoded} (some (fs', n', b)) (some (fs, n, ok))
    → decode_event_stream_frames (drop n xs ++ ys) ≡ some (gs, m, ok')
    → after fs' n' (decode_event_stream_frames (drop n' xs ++ ys))
      ≡ some (fs ++ gs, n + m, ok' || ltb 0 n)
unfolding after
decoded_twice xs ys fs fs' gs n n' m b ok ok' e second =
    let same_frames : fs' ≡ fs = cc in
    let same_consumed : n' ≡ n = cc in rw (same_frames, same_consumed, second) refl

-- Where some bytes are decoded, and then what they leave with any bytes after it, the frames are
-- those of decoding all at once, in the same order, and as many bytes are consumed; all at once is
-- reported as no event stream exactly where the second call says so and the first consumed
-- nothing.
pub decode-append :
    (xs ys : Bytes) (fs gs : List EventStreamFrame) (n m : ℕ) (ok ok' : Bool)
    → decode_event_stream_frames xs ≡ some (fs, n, ok)
    → decode_event_stream_frames (drop n xs ++ ys) ≡ some (gs, m, ok')
    → decode_event_stream_frames (xs ++ ys) ≡ some (fs ++ gs, n + m, ok' || ltb 0 n)
decode-append xs ys fs gs n m ok ok' first second =
    let c = chunk (suc (length xs)) xs ys (omega arith) in
    c.goes_on
    ∙ decoded_twice xs ys fs c.frames gs n c.consumed m c.ok ok ok' (sym c.result ∙ first) second
