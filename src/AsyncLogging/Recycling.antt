-- ===== src/AsyncLogging/Recycling.antt =====
-- base/AsyncLogging.cc, `threadFunc` behind its critical section: the buffers are written, and two of
-- them become the new ones.
use dserver.Prelude.{
  ℕ, ◌≤◌, ◌≡◌, refl, ap, subst, ◌∙◌, inl, inr, Bool, true, false, not, ◌||◌, Option, none, some,
  List, [], ◌∷◌, ◌++◌, ltb, ◌==◌, if◌then◌else◌, length, take, arith, Bool-cases, append_assoc,
  append-nil,
}
use dserver.LogStream.{FixedBuffer, reset}
use dserver.AsyncLogging.{
  at_test, behind_section, AsyncLogging, all_data, write_buffers, refill, recycle, finish,
}
use dserver.AsyncLogging.Invariant.{
  IsBlank, AreLarge, IsCovered, IsPlaced, IsSound, data_of, Delivers,
}

-- What the two refills give.
abbrev Refills : Option FixedBuffer → List FixedBuffer → Type 0
Refills new2 two =
    (n1 : Option FixedBuffer) × (rest : List FixedBuffer) × (n2 : Option FixedBuffer) × (last : List
      FixedBuffer)
    × (refill none two ≡ some (n1, rest))
    × (refill new2 rest ≡ some (n2, last))
    × IsBlank n1
    × IsBlank n2

Refills-two :
    (new2 : Option FixedBuffer) (two : List FixedBuffer)
    → AreLarge two
    → 1 ≤ length two
    → length two ≤ 2
    → IsCovered new2 2 (length two)
    → Refills new2 two
unfolding refill reset
Refills-two new2 [] h k m c = absurd (omega arith)
Refills-two none (x ∷ []) h k m c = absurd (omega arith)
Refills-two (some b) (x ∷ []) h k m c = (some (reset x), [], some b, [], refl, refl, (h.0, refl), c)
Refills-two none (x ∷ y ∷ []) h k m c =
    (some (reset y), x ∷ [], some (reset x), [], refl, refl, (h.1.0, refl), (h.0, refl))
Refills-two (some b) (x ∷ y ∷ []) h k m c =
    (some (reset y), x ∷ [], some b, x ∷ [], refl, refl, (h.1.0, refl), c)
Refills-two new2 (x ∷ y ∷ z ∷ bs) h k m c = absurd (omega arith)

-- At most two of the buffers.
abbrev front : List FixedBuffer → List FixedBuffer
front bs = if ltb 2 (length bs) then take 2 bs else bs

Refills-front :
    (new2 : Option FixedBuffer) (bs : List FixedBuffer)
    → AreLarge bs
    → 1 ≤ length bs
    → IsCovered new2 2 (length bs)
    → Refills new2 (front bs)
Refills-front new2 [] h k c = absurd (omega arith)
Refills-front new2 (x ∷ []) h k c = Refills-two new2 (x ∷ []) h k (omega arith) c
Refills-front new2 (x ∷ y ∷ []) h k c = Refills-two new2 (x ∷ y ∷ []) h k (omega arith) c
Refills-front new2 (x ∷ y ∷ z ∷ bs) h k c =
    let y' : ltb 2 (length (x ∷ y ∷ z ∷ bs)) ≡ true = ground arith in
    rw y' (
      Refills-two new2 (x ∷ y ∷ []) (h.0, (h.1.0, tt)) (omega arith) (omega arith)
        (elim new2 as (λ p. IsCovered p 2 (length (x ∷ y ∷ z ∷ bs)) → IsCovered p 2 2) [
          | none ↦ λ q. omega arith
          | some b ↦ λ q. q
        ]
          c))

-- What is left of the buffers when too many have come.
abbrev spared : List FixedBuffer → List FixedBuffer
spared bs = if ltb 25 (length bs) then take 2 bs else bs

front-spared : (bs : List FixedBuffer) → front (spared bs) ≡ front bs
front-spared [] = refl
front-spared (x ∷ []) = refl
front-spared (x ∷ y ∷ []) = refl
front-spared (x ∷ y ∷ z ∷ bs) =
    let long : ltb 2 (length (x ∷ y ∷ z ∷ bs)) ≡ true = ground arith in
    elim (Bool-cases (ltb 25 (length (x ∷ y ∷ z ∷ bs)))) [
      | inl d ↦ rw (d, long) refl
      | inr d ↦ rw d refl
    ]

written_stream :
    (output message written others : List ℕ) (bs : List FixedBuffer) (d : Bool)
    → d ≡ false
    → written ≡ (if d then message else []) ++ all_data (if d then take 2 bs else bs)
    → (output ++ written) ++ others ≡ (output ++ (all_data bs ++ others)) ++ []
written_stream output message written others bs d e w = simp (w, e, append_assoc, append-nil)

-- Nothing is left to write, and the buffers in use are as they were.
pub record Written (a a' : AsyncLogging) : Type 0 where
  pub same_buffers : a'.buffers ≡ a.buffers
  pub same_current : a'.current_buffer ≡ a.current_buffer
  pub none_left : a'.buffers_to_write ≡ []
  pub drops : a'.has_dropped ≡ (a.has_dropped || ltb 25 (length a.buffers_to_write))

module _ (a : AsyncLogging) (message : List ℕ) (s : IsSound a) (p : a.place ≡ behind_section) where
  pub finish-Delivers :
      (a' : AsyncLogging) × (finish a message ≡ some a') × Delivers a [] a' × Written a a'
  unfolding finish recycle write_buffers
  finish-Delivers =
      let (x, k, c) =
        subst (λ q. IsPlaced q a.new_buffer1 a.new_buffer2 a.buffers_to_write) p s.place_lem in
      let (n1, rest, n2, last, e, f, b1, b2) =
        Refills-front a.new_buffer2 a.buffers_to_write s.to_write_lem k c in
      let bs = a.buffers_to_write in
      let some_left : not (length bs == 0) ≡ true = ground (arith, k) in
      let first : refill a.new_buffer1 (front (spared bs)) ≡ some (n1, rest) =
        ap (λ q. refill q (front (spared bs))) x ∙ ap (refill none) (front-spared bs) ∙ e in
      (
        record a {
          output =
              a.output ++ ((if ltb 25 (length bs) then message else []) ++ all_data (spared bs));
          has_dropped = a.has_dropped || ltb 25 (length bs);
          new_buffer1 = n1;
          new_buffer2 = n2;
          buffers_to_write = [];
          place = at_test;
        },
        rw (some_left, first, f) refl,
        record {
          sound = record {
            current_lem = s.current_lem;
            next_lem = s.next_lem;
            buffers_lem = s.buffers_lem;
            to_write_lem = tt;
            place_lem = (b1, b2, refl);
          };
          still_dropped = λ d. ground (arith, d);
          stream = λ d.
              written_stream a.output message
                ((if ltb 25 (length bs) then message else []) ++ all_data (spared bs))
                (all_data a.buffers ++ data_of a.current_buffer) bs (ltb 25 (length bs))
                (ground (arith, d)) refl;
        },
        record { same_buffers = refl; same_current = refl; none_left = refl; drops = refl },
      )
