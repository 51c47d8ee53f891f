-- ===== src/Protocol/Framing.antt =====
-- Reading and writing frames: crates/netplan/src/protocol/mod.rs, `read_frame`, `write_frame` and
-- `validate_frame_length`.
use netplan.Base.{
  ℕ, zero, suc, ◌/◌, ◌%◌, ◌≤◌, ◌<◌, ◌==◌, ltb, ◌||◌, ◌≡◌, ◌↔◌, refl, sym, ap, ◌∙◌, arith, List, [],
  ◌∷◌, ◌++◌, length, length-take, take, drop, ok, ◌>>=◌, bind-eq-ok, ok-inj, subst, length-append,
  seq-eq-ok, fail_if, min,
}
use netplan.Error.{protocol, frame_too_long}
use netplan.Protocol.Frames.{
  max_frame_size, from_le_bytes, validate_frame_length, read_exact, read_body, read_frame,
  write_frame,
}

take-drop : (n : ℕ) (xs : List ℕ) → take n xs ++ drop n xs ≡ xs
take-drop zero xs = refl
take-drop (suc n) [] = refl
take-drop (suc n) (x ∷ xs) = ap (λ l. x ∷ l) (take-drop n xs)

take-append : (xs ys : List ℕ) → take (length xs) (xs ++ ys) ≡ xs
take-append [] ys = refl
take-append (x ∷ xs) ys = ap (λ l. x ∷ l) (take-append xs ys)

drop-append : (xs ys : List ℕ) → drop (length xs) (xs ++ ys) ≡ ys
drop-append [] ys = refl
drop-append (x ∷ xs) ys = drop-append xs ys

read_exact-eq-ok :
    (n : ℕ) (s f r : List ℕ)
    → read_exact n s ≡ ok (f, r)
    → (n ≤ length s) × (take n s ≡ f) × (drop n s ≡ r)
read_exact-eq-ok n s f r h = ground arith

pub from_le_bytes-to_le_bytes :
    (n : ℕ)
    → n < 4294967296
    → from_le_bytes (n % 256) (n / 256 % 256) (n / 65536 % 256) (n / 16777216 % 256) ≡ n
from_le_bytes-to_le_bytes n h = omega arith

-- A frame is well formed when its prefix declares a body that is there, and is neither empty nor
-- longer than 16 MiB.
abbrev pub FrameLength : List ℕ → Type 0
FrameLength (a ∷ b ∷ c ∷ d ∷ body) =
    (from_le_bytes a b c d ≡ length body) × (0 < length body) × (length body ≤ max_frame_size)
FrameLength frame = ⊥

-- `validate_frame_length` accepts a frame exactly when its first four bytes, read as a little-endian
-- number, give the length of the rest, which is at least 1 and at most 16 MiB.
pub validate_frame_length_iff :
    (frame : List ℕ) → (validate_frame_length frame ≡ ok tt) ↔ FrameLength frame
unfolding validate_frame_length
validate_frame_length_iff [] = (λ h. cc, λ h. absurd h)
validate_frame_length_iff (a ∷ []) = (λ h. cc, λ h. absurd h)
validate_frame_length_iff (a ∷ b ∷ []) = (λ h. cc, λ h. absurd h)
validate_frame_length_iff (a ∷ b ∷ c ∷ []) = (λ h. cc, λ h. absurd h)
validate_frame_length_iff (a ∷ b ∷ c ∷ d ∷ body) = (λ h. ground arith, λ h. ground arith)

read_exact-append : (n : ℕ) (xs ys : List ℕ) → n ≡ length xs → read_exact n (xs ++ ys) ≡ ok (xs, ys)
read_exact-append n xs ys e =
    let t = take-append xs ys in
    let d = drop-append xs ys in let l = length-append xs ys in rw (e, t, d) (ground arith)

-- What `read_body` has made of its stream.
abbrev Framed : ℕ → ℕ → ℕ → ℕ → List ℕ → (List ℕ × List ℕ) → Type 0
Framed a b c d s q = (a ∷ b ∷ c ∷ d ∷ s ≡ q.0 ++ q.1) × FrameLength q.0

read_body-eq-ok :
    (a b c d : ℕ) (s : List ℕ) (q : List ℕ × List ℕ)
    → read_body (a ∷ b ∷ c ∷ d ∷ []) s ≡ ok q
    → Framed a b c d s q
read_body-eq-ok a b c d s q h =
    let n = from_le_bytes a b c d in
    let (bounds, rest) = seq-eq-ok (fail_if (n == 0 || ltb max_frame_size n) _) _ h in
    let (p, e, last) = bind-eq-ok (read_exact n s) _ rest in
    let (enough, taken, dropped) = read_exact-eq-ok n s p.0 p.1 e in
    let parts : s ≡ p.0 ++ p.1 = rw (← taken, ← dropped) (sym (take-drop n s)) in
    let size : length p.0 ≡ min n (length s) = rw (← taken) (length-take n s) in
    subst (Framed a b c d s) (ok-inj last)
      (ap (λ l. a ∷ b ∷ c ∷ d ∷ l) parts, (ground arith, ground arith, ground arith))

append-read_frame : (f r : List ℕ) → FrameLength f → read_frame (f ++ r) ≡ ok (f, r)
unfolding read_frame
append-read_frame (a ∷ b ∷ c ∷ d ∷ body) r h =
    let e = read_exact-append (from_le_bytes a b c d) body r h.0 in
    let n = from_le_bytes a b c d in
    let start = read_exact-append 4 (a ∷ b ∷ c ∷ d ∷ []) (body ++ r) refl in
    let bounds : fail_if (n == 0 || ltb max_frame_size n) (protocol (frame_too_long n)) ≡ ok tt =
      ground arith in
    rw (start, read_body, bounds, e) refl
append-read_frame [] r h = absurd h
append-read_frame (a ∷ []) r h = absurd h
append-read_frame (a ∷ b ∷ []) r h = absurd h
append-read_frame (a ∷ b ∷ c ∷ []) r h = absurd h

Framed-parts :
    (f r : List ℕ) (a b c d : ℕ) (t : List ℕ)
    → Framed a b c d t (f, r)
    → (a ∷ b ∷ c ∷ d ∷ t ≡ f ++ r) × (validate_frame_length f ≡ ok tt)
Framed-parts f r a b c d t (e, l) = (e, (validate_frame_length_iff f).1 l)

read_frame-parts :
    (f r s : List ℕ) → read_frame s ≡ ok (f, r) → (s ≡ f ++ r) × (validate_frame_length f ≡ ok tt)
unfolding read_frame
read_frame-parts f r [] h = cc
read_frame-parts f r (a ∷ []) h = cc
read_frame-parts f r (a ∷ b ∷ []) h = cc
read_frame-parts f r (a ∷ b ∷ c ∷ []) h = cc
read_frame-parts f r (a ∷ b ∷ c ∷ d ∷ t) h =
    let start = read_exact-append 4 (a ∷ b ∷ c ∷ d ∷ []) t refl in
    Framed-parts f r a b c d t (read_body-eq-ok a b c d t (f, r) (rw start at h))

-- `read_frame` takes a frame off a stream, leaving `r`, exactly when the stream is that frame
-- followed by `r` and `validate_frame_length` accepts the frame.
pub read_frame_iff :
    (s f r : List ℕ)
    → (read_frame s ≡ ok (f, r)) ↔ ((s ≡ f ++ r) × (validate_frame_length f ≡ ok tt))
read_frame_iff s f r = (read_frame-parts f r s, written)
  where
    written : (s ≡ f ++ r) × (validate_frame_length f ≡ ok tt) → read_frame s ≡ ok (f, r)
    written (e, v) = rw e (append-read_frame f r ((validate_frame_length_iff f).0 v))

append_assoc : (xs ys zs : List ℕ) → (xs ++ ys) ++ zs ≡ xs ++ (ys ++ zs)
append_assoc [] ys zs = refl
append_assoc (x ∷ xs) ys zs = ap (λ l. x ∷ l) (append_assoc xs ys zs)

-- Two frames that `write_frame` accepts one after the other are read back in that order, and the
-- second read leaves of the stream exactly what stands behind them.
write_frame-read_frame :
    (f g w : List ℕ)
    → (write_frame [] f >>= λ once. write_frame once g) ≡ ok w
    → (r : List ℕ) → (read_frame (w ++ r) ≡ ok (f, g ++ r)) × (read_frame (g ++ r) ≡ ok (g, r))
unfolding write_frame
write_frame-read_frame f g w h r =
    let (once, first, second) = bind-eq-ok (write_frame [] f) _ h in
    let (f_ok, one) = seq-eq-ok (validate_frame_length f) _ first in
    let (g_ok, two) = seq-eq-ok (validate_frame_length g) _ second in
    let whole : w ≡ f ++ g = sym (ok-inj two) ∙ ap (λ l. l ++ g) (sym (ok-inj one)) in
    let reads_f = (read_frame_iff (f ++ (g ++ r)) f (g ++ r)).1 (refl, f_ok) in
    let reads_g = (read_frame_iff (g ++ r) g r).1 (refl, g_ok) in
    (rw (whole, append_assoc f g r) reads_f, reads_g)
