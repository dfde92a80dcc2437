-- ===== src/Protocol/Framer/Loop.antt =====
-- The loop of `feed`: what one round does, and the loop on a stream that is cut in two.
use log_transfer_analyzer.Prelude.{
  ℕ, zero, suc, ◌+◌, ◌-◌, ◌≤◌, ◌<◌, ◌≡◌, refl, sym, ap, ◌∙◌, [], ◌∷◌, ◌++◌, true, false, ◌==◌, min,
  length, length-append, length-drop, take, drop, take-append_left, take-append_right, take_all,
  drop_all, drop-append_left, drop-append_right, append-nil, append_assoc, Bytes, Bool, ◌⊎◌, inl,
  inr, arith,
}
use mathlib.Core.Bool.{false≢true}
use native.Mathlib.Decide.{dec_lt}
use log_transfer_analyzer.Protocol.Codec.{DecodeStatus}
use log_transfer_analyzer.Protocol.Framer.{Framer, Verdict, aim, stop, judge, feed_loop, is_waiting}
use log_transfer_analyzer.Protocol.Framer.Judge.{with_more, judge-aim_lt, judge-stop, judge-append}

pub Verdict-cases : (v : Verdict) → ((st : DecodeStatus) × (v ≡ stop st)) ⊎ ((t : ℕ) × (v ≡ aim t))
Verdict-cases (stop st) = inl (st, refl)
Verdict-cases (aim t) = inr (t, refl)

-- The three ways in which a round goes.
pub loop_stop :
    (fuel : ℕ) (fr : Framer) (d : Bytes) (c : ℕ) (st : DecodeStatus)
    → judge fr ≡ stop st
    → feed_loop (suc fuel) fr d c ≡ (record fr { status = st }, c)
unfolding feed_loop
loop_stop fuel fr d c st e = rw (e, feed_loop) refl

pub loop_dry :
    (fuel : ℕ) (fr : Framer) (c t : ℕ) → judge fr ≡ aim t → feed_loop (suc fuel) fr [] c ≡ (fr, c)
unfolding feed_loop
loop_dry fuel fr c t e = rw (e, feed_loop) refl

pub loop_copy :
    (fuel : ℕ) (fr : Framer) (d : Bytes) (c t : ℕ)
    → judge fr ≡ aim t
    → 0 < length d
    → let n = min (t - length fr.buffer) (length d) in
      feed_loop (suc fuel) fr d c ≡ feed_loop fuel (with_more fr (take n d)) (drop n d) (c + n)
unfolding feed_loop
loop_copy fuel fr [] c t e h = absurd (omega arith)
loop_copy fuel fr (x ∷ d) c t e h =
    let some_left : (length (x ∷ d) == 0) ≡ false = ground arith in
    rw (e, feed_loop) (rw some_left refl)

pub empty-cases : (d : Bytes) → (d ≡ []) ⊎ (0 < length d)
empty-cases [] = inl refl
empty-cases (x ∷ d) = inr (omega arith)

-- More fuel than bytes is enough: the result does not depend on it.
pub feed_loop_fuel :
    (f g : ℕ) (fr : Framer) (d : Bytes) (c : ℕ)
    → length d < f
    → length d < g
    → feed_loop f fr d c ≡ feed_loop g fr d c
feed_loop_fuel zero g fr d c hf hg = absurd (omega arith)
feed_loop_fuel (suc f) zero fr d c hf hg = absurd (omega arith)
feed_loop_fuel (suc f) (suc g) fr d c hf hg = elim (Verdict-cases (judge fr)) [
  | inl (st, e) ↦ loop_stop f fr d c st e ∙ sym (loop_stop g fr d c st e)
  | inr (t, e) ↦
      let n = min (t - length fr.buffer) (length d) in
      elim (empty-cases d) [
        | inl none ↦ rw none (loop_dry f fr c t e ∙ sym (loop_dry g fr c t e))
        | inr left ↦
            loop_copy f fr d c t e left
            ∙ feed_loop_fuel f g (with_more fr (take n d)) (drop n d) (c + n)
                (omega (arith, length-drop n d, judge-aim_lt fr t e))
                (omega (arith, length-drop n d, judge-aim_lt fr t e))
            ∙ sym (loop_copy g fr d c t e left)
      ]
]

-- The loop on a stream cut in two: where the first part does not end it, it goes on with the
-- second part from the state that the first part left.
abbrev pub resumed : Framer × ℕ → Bytes → Framer × ℕ
resumed (fr, c) b = feed_loop (length b + 1) fr b c

-- A copy that does not reach its target takes all bytes, and waits.
loop_short :
    (f : ℕ) (fr : Framer) (a : Bytes) (c t : ℕ)
    → length a < f
    → judge fr ≡ aim t
    → 0 < length a
    → length fr.buffer + length a < t
    → feed_loop f fr a c ≡ (with_more fr a, c + length a)
loop_short zero fr a c t hf e left short = absurd (omega arith)
loop_short (suc zero) fr a c t hf e left short = absurd (omega arith)
loop_short (suc (suc f)) fr a c t hf e left short =
    loop_copy (suc f) fr a c t e left
    ∙ rw (all, take_all (length a) a (omega arith), drop_all (length a) a (omega arith))
        (loop_dry f (with_more fr a) (c + length a) t (judge-append fr a t e short))
  where
    all : min (t - length fr.buffer) (length a) ≡ length a
    all = omega arith

loop_same :
    (g : ℕ) (fr : Framer) {x x' d d' : Bytes} {c c' : ℕ}
    → x ≡ x'
    → d ≡ d'
    → c ≡ c'
    → feed_loop g (record fr { buffer = x }) d c ≡ feed_loop g (record fr { buffer = x' }) d' c'
loop_same g fr p q r = λ i. feed_loop g (record fr { buffer = p i }) (q i) (r i)

-- Such a copy is continued by the bytes of the next chunk.
loop_joined :
    (g : ℕ) (fr : Framer) (a b : Bytes) (c t : ℕ)
    → length a + length b < suc g
    → judge fr ≡ aim t
    → 0 < length a
    → 0 < length b
    → length fr.buffer + length a < t
    → feed_loop (suc g) fr (a ++ b) c ≡ resumed (with_more fr a, c + length a) b
loop_joined g fr a b c t hg e la lb short =
    let m = min (t - length (fr.buffer ++ a)) (length b) in
    let n = min (t - length fr.buffer) (length (a ++ b)) in
    let sum : n ≡ length a + m = omega (arith, length-append a b, length-append fr.buffer a) in
    let rest : n - length a ≡ m = omega arith in
    let front : take n (a ++ b) ≡ a ++ take m b =
      take-append_right n a b (omega arith) ∙ ap (λ k. a ++ take k b) rest in
    let back : drop n (a ++ b) ≡ drop m b =
      drop-append_right n a b (omega arith) ∙ ap (λ k. drop k b) rest in
    let some_ahead = judge-aim_lt (with_more fr a) t (judge-append fr a t e short) in
    loop_copy g fr (a ++ b) c t e (omega (arith, length-append a b))
    ∙ loop_same g fr (ap (◌++◌ fr.buffer) front ∙ sym (append_assoc fr.buffer a (take m b))) back
        (omega arith)
    ∙ feed_loop_fuel g (length b) (with_more (with_more fr a) (take m b)) (drop m b)
        (c + length a + m) (omega (arith, length-drop m b))
        (omega (arith, length-drop m b, some_ahead))
    ∙ sym
        (loop_copy (length b) (with_more fr a) b (c + length a) t (judge-append fr a t e short) lb)
    ∙ ap (λ k. feed_loop k (with_more fr a) b (c + length a)) (omega arith)

-- A copy that reaches its target within the first part.
pub loop_reaches :
    (g : ℕ) (fr : Framer) (a b : Bytes) (c t : ℕ)
    → judge fr ≡ aim t
    → t ≤ length fr.buffer + length a
    → let k = t - length fr.buffer in
      feed_loop (suc g) fr (a ++ b) c
      ≡ feed_loop g (with_more fr (take k a)) (drop k a ++ b) (c + k)
loop_reaches g fr a b c t e enough =
    let k = t - length fr.buffer in
    let ahead = judge-aim_lt fr t e in
    let n : min k (length (a ++ b)) ≡ k = omega (arith, length-append a b) in
    loop_copy g fr (a ++ b) c t e (omega (arith, length-append a b))
    ∙ loop_same g fr
        (ap (λ j. fr.buffer ++ take j (a ++ b)) n
          ∙ ap (◌++◌ fr.buffer) (take-append_left k a b (omega arith)))
        (ap (λ j. drop j (a ++ b)) n ∙ drop-append_left k a b (omega arith)) (ap (◌+◌ c) n)

pub loop-append :
    (f g : ℕ) (fr : Framer) (a b : Bytes) (c : ℕ)
    → length a < f
    → length a + length b < g
    → is_waiting fr.status ≡ true
    → ((is_waiting (feed_loop f fr a c).0.status ≡ true)
        × (feed_loop g fr (a ++ b) c ≡ resumed (feed_loop f fr a c) b))
      ⊎ ((is_waiting (feed_loop f fr a c).0.status ≡ false)
          × (feed_loop g fr (a ++ b) c ≡ feed_loop f fr a c))
loop-append zero g fr a b c hf hg w = absurd (omega arith)
loop-append (suc f) zero fr a b c hf hg w = absurd (omega arith)
loop-append (suc f) (suc g) fr a b c hf hg w = elim (Verdict-cases (judge fr)) [
  | inl (st, e) ↦
      rw (loop_stop f fr a c st e) (inr (judge-stop fr st e, loop_stop g fr (a ++ b) c st e))
  | inr (t, e) ↦ elim (place a fr t) [
    | inl nothing ↦ rw nothing (
        rw (loop_dry f fr c t e)
          (inl (w, feed_loop_fuel (suc g) (length b + 1) fr b c (omega arith) (omega arith))))
    | inr (inl (left, short)) ↦ elim (empty-cases b) [
      | inl none ↦ rw none (
          rw (append-nil, loop_short (suc f) fr a c t hf e left short)
            (inl (
              w,
              loop_short (suc g) fr a c t (omega arith) e left short
                  ∙ sym
                      (loop_dry 0 (with_more fr a) (c + length a) t (judge-append fr a t e short)),
            )))
      | inr more ↦
          rw (loop_short (suc f) fr a c t hf e left short)
            (inl (w, loop_joined g fr a b c t hg e left more short))
    ]
    | inr (inr enough) ↦
        let k = t - length fr.buffer in
        rw (loop_reaches g fr a b c t e enough, whole t e enough)
          (loop-append f g (with_more fr (take k a)) (drop k a) b (c + k)
            (omega (arith, length-drop k a, judge-aim_lt fr t e))
            (omega (arith, length-drop k a, judge-aim_lt fr t e)) w)
  ]
]
  where
    place :
        (a : Bytes) (fr : Framer) (t : ℕ)
        → (a ≡ [])
          ⊎ (((0 < length a) × (length fr.buffer + length a < t))
              ⊎ (t ≤ length fr.buffer + length a))
    place [] fr t = inl refl
    place (x ∷ a) fr t = elim (dec_lt (length fr.buffer + length (x ∷ a)) t) [
      | yes h ↦ inr (inl (omega arith, h))
      | no h ↦ inr (inr (omega arith))
    ]

    whole :
        (t : ℕ)
        → judge fr ≡ aim t
        → t ≤ length fr.buffer + length a
        → let k = t - length fr.buffer in
          feed_loop (suc f) fr a c ≡ feed_loop f (with_more fr (take k a)) (drop k a) (c + k)
    whole t e enough =
        let k = t - length fr.buffer in
        ap (λ d. feed_loop (suc f) fr d c) (sym (append-nil a))
        ∙ loop_reaches f fr a [] c t e enough
        ∙ ap (λ d. feed_loop f (with_more fr (take k a)) d (c + k)) (append-nil (drop k a))

-- The count only adds up.
pub loop_count :
    (f : ℕ) (fr : Framer) (d : Bytes) (c : ℕ)
    → feed_loop f fr d c ≡ ((feed_loop f fr d 0).0, c + (feed_loop f fr d 0).1)
loop_count zero fr d c = unfold feed_loop in ap (λ k. (fr, k)) (omega arith)
loop_count (suc f) fr d c = elim (Verdict-cases (judge fr)) [
  | inl (st, e) ↦
      rw (loop_stop f fr d c st e, loop_stop f fr d 0 st e)
        (ap (λ k. (record fr { status = st }, k)) (omega arith))
  | inr (t, e) ↦ elim (empty-cases d) [
    | inl none ↦
        rw none (rw (loop_dry f fr c t e, loop_dry f fr 0 t e) (ap (λ k. (fr, k)) (omega arith)))
    | inr left ↦
        let n = min (t - length fr.buffer) (length d) in
        let fr' = with_more fr (take n d) in
        rw
          (
            loop_copy f fr d c t e left,
            loop_copy f fr d 0 t e left,
            loop_count f fr' (drop n d) (c + n),
            loop_count f fr' (drop n d) (0 + n),
          )
          (ap (λ k. ((feed_loop f fr' (drop n d) 0).0, k)) (omega arith))
  ]
]

pub clash {ℓ} : {A : Type ℓ} {b : Bool} → b ≡ false → b ≡ true → A
clash f t = absurd (false≢true (sym f ∙ t))

-- The loop leaves a framer that waits only where the next round needs a byte.
pub loop_waits :
    (f : ℕ) (fr : Framer) (d : Bytes) (c : ℕ)
    → length d < f
    → is_waiting (feed_loop f fr d c).0.status ≡ true
    → (t : ℕ) × (judge (feed_loop f fr d c).0 ≡ aim t)
loop_waits zero fr d c h w = absurd (omega arith)
loop_waits (suc f) fr d c h w = elim (Verdict-cases (judge fr)) [
  | inl (st, e) ↦ clash (judge-stop fr st e) (rw (loop_stop f fr d c st e) at w)
  | inr (t, e) ↦ elim (empty-cases d) [
    | inl none ↦ rw none (rw (loop_dry f fr c t e) (t, e))
    | inr left ↦
        let n = min (t - length fr.buffer) (length d) in
        rw (loop_copy f fr d c t e left) (
          loop_waits f (with_more fr (take n d)) (drop n d) (c + n)
            (omega (arith, length-drop n d, judge-aim_lt fr t e))
            (rw (loop_copy f fr d c t e left) at w))
  ]
]
