-- ===== src/AsyncLogging/Invariant.antt =====
-- base/AsyncLogging.cc: no pointer that is read is null, whatever the order of the threads' steps.
use dserver.Prelude.{
  ℕ, ◌≤◌, ◌<◌, ◌≡◌, refl, sym, ap, ◌∙◌, inl, inr, true, false, Option, none, some, List, [], ◌∷◌,
  ◌++◌, ltb, length, arith, Bool-cases, length-append, append_assoc, append-nil,
}
use dserver.LogStream.Lines.{append_lem}
use dserver.LogStream.{pos, FixedBuffer, avail, append, large_buffer}
use dserver.AsyncLogging.{
  Place, behind_section, ended, AsyncLogging, spare, new_buffer, append_line, all_data,
}

-- The pointer leads to an empty buffer.
abbrev pub IsBlank : Option FixedBuffer → Type 0
IsBlank none = ⊥
IsBlank (some b) = (b.size ≡ large_buffer) × (b.data_ ≡ [])

abbrev pub IsInUse : Option FixedBuffer → Type 0
IsInUse none = ⊥
IsInUse (some b) = b.size ≡ large_buffer

abbrev pub AreLarge : List FixedBuffer → Type 0
AreLarge [] = Unit {0}
AreLarge (b ∷ bs) = (b.size ≡ large_buffer) × AreLarge bs

-- There is an empty buffer, or enough others to make one from.
abbrev pub IsCovered : Option FixedBuffer → ℕ → ℕ → Type 0
IsCovered none n count = n ≤ count
IsCovered (some b) n count = IsBlank (some b)

abbrev pub IsPlaced : Place → Option FixedBuffer → Option FixedBuffer → List FixedBuffer → Type 0
IsPlaced behind_section new1 new2 bs =
    (new1 ≡ none) × (1 ≤ length bs) × IsCovered new2 2 (length bs)
IsPlaced ended new1 new2 bs = Unit {0}
IsPlaced _ new1 new2 bs = IsBlank new1 × IsBlank new2 × (bs ≡ [])

pub record IsSound (a : AsyncLogging) : Type 0 where
  pub current_lem : IsInUse a.current_buffer
  pub next_lem : IsCovered a.next_buffer 1 (length a.buffers)
  pub buffers_lem : AreLarge a.buffers
  pub to_write_lem : AreLarge a.buffers_to_write
  pub place_lem : IsPlaced a.place a.new_buffer1 a.new_buffer2 a.buffers_to_write

abbrev pub data_of : Option FixedBuffer → List ℕ
data_of none = []
data_of (some b) = b.data_

-- What was logged and is not yet in the file.
abbrev pub held : AsyncLogging → List ℕ
held a = all_data a.buffers_to_write ++ (all_data a.buffers ++ data_of a.current_buffer)

-- One step: `lines` are what it logs.
pub record Delivers (a : AsyncLogging) (lines : List ℕ) (a' : AsyncLogging) : Type 0 where
  pub sound : IsSound a'
  pub still_dropped : a.has_dropped ≡ true → a'.has_dropped ≡ true
  pub stream : a'.has_dropped ≡ false → a'.output ++ held a' ≡ (a.output ++ held a) ++ lines

pub AreLarge-append :
    (bs : List FixedBuffer) (b : FixedBuffer)
    → AreLarge bs
    → b.size ≡ large_buffer
    → AreLarge (bs ++ (b ∷ []))
AreLarge-append [] b h k = (k, tt)
AreLarge-append (c ∷ bs) b (h, hs) k = (h, AreLarge-append bs b hs k)

pub all_data-append :
    (bs : List FixedBuffer) (b : FixedBuffer) → all_data (bs ++ (b ∷ [])) ≡ all_data bs ++ b.data_
all_data-append [] b = append-nil b.data_
all_data-append (c ∷ bs) b =
    ap (λ xs. c.data_ ++ xs) (all_data-append bs b)
    ∙ sym (append_assoc c.data_ (all_data bs) b.data_)

append-data :
    (b : FixedBuffer) (line : List ℕ)
    → ltb (length line) (avail b) ≡ true
    → (append b line (pos (length line))).data_ ≡ b.data_ ++ line
append-data b line h = ap (λ c. c.data_) (append_lem b line) ∙ rw h refl

spare-data :
    (p : Option FixedBuffer) (n : ℕ) (line : List ℕ)
    → IsCovered p 1 n
    → length line < large_buffer
    → ((append (spare p) line (pos (length line))).size ≡ large_buffer)
      × ((append (spare p) line (pos (length line))).data_ ≡ line)
unfolding append
spare-data none n line c h =
    (refl, ap (λ b. b.data_) (append_lem new_buffer line) ∙ ground (arith, h))
spare-data (some b) n line (s, d) h =
    (s, ap (λ c. c.data_) (append_lem b line) ∙ ground (arith, h, s, d))

pub in_use_cases :
    (p : Option FixedBuffer)
    → IsInUse p
    → (b : FixedBuffer) × (p ≡ some b) × (b.size ≡ large_buffer)
in_use_cases none h = absurd h
in_use_cases (some b) h = (b, refl, h)

-- The buffers in use change at their end.
stream_lem :
    (output written full current line full' current' : List ℕ)
    → full' ++ current' ≡ (full ++ current) ++ line
    → output ++ (written ++ (full' ++ current'))
      ≡ (output ++ (written ++ (full ++ current))) ++ line
stream_lem output written full current line full' current' e =
    ap (λ xs. output ++ (written ++ xs)) e ∙ simp append_assoc

module _ (a : AsyncLogging) (b : FixedBuffer) (line : List ℕ) (s : IsSound a)
    (e : a.current_buffer ≡ some b) (z : b.size ≡ large_buffer) where
  appended-Delivers :
      ltb (length line) (avail b) ≡ true
      → Delivers a line (record a { current_buffer = some (append b line (pos (length line))) })
  unfolding append
  appended-Delivers f = record {
    sound = record {
      current_lem = z;
      next_lem = s.next_lem;
      buffers_lem = s.buffers_lem;
      to_write_lem = s.to_write_lem;
      place_lem = s.place_lem;
    };
    still_dropped = λ d. d;
    stream = λ d.
        stream_lem a.output (all_data a.buffers_to_write) (all_data a.buffers)
          (data_of a.current_buffer) line (all_data a.buffers)
          (append b line (pos (length line))).data_
          (ap (λ xs. all_data a.buffers ++ xs) (append-data b line f)
            ∙ ap (λ p. all_data a.buffers ++ (data_of p ++ line)) (sym e)
            ∙ sym (append_assoc (all_data a.buffers) (data_of a.current_buffer) line));
  }

  rotated-Delivers :
      length line < large_buffer
      → Delivers a line (record a {
        buffers = a.buffers ++ (b ∷ []);
        current_buffer = some (append (spare a.next_buffer) line (pos (length line)));
        next_buffer = none;
      })
  rotated-Delivers h =
      let (size, holds) = spare-data a.next_buffer (length a.buffers) line s.next_lem h in
      record {
        sound = record {
          current_lem = size;
          next_lem = omega (arith, length-append a.buffers (b ∷ []));
          buffers_lem = AreLarge-append a.buffers b s.buffers_lem z;
          to_write_lem = s.to_write_lem;
          place_lem = s.place_lem;
        };
        still_dropped = λ d. d;
        stream = λ d.
            stream_lem a.output (all_data a.buffers_to_write) (all_data a.buffers)
              (data_of a.current_buffer) line (all_data (a.buffers ++ (b ∷ [])))
              (append (spare a.next_buffer) line (pos (length line))).data_
              (ap (λ xs. all_data (a.buffers ++ (b ∷ [])) ++ xs) holds
                ∙ ap (λ xs. xs ++ line) (all_data-append a.buffers b)
                ∙ ap (λ p. (all_data a.buffers ++ data_of p) ++ line) (sym e));
      }

pub append_line-Delivers :
    (a : AsyncLogging) (line : List ℕ)
    → IsSound a
    → length line < large_buffer
    → (a' : AsyncLogging) × (append_line a line ≡ some a') × Delivers a line a'
unfolding append_line
append_line-Delivers a line s h =
    let (b, e, z) = in_use_cases a.current_buffer s.current_lem in
    elim (Bool-cases (ltb (length line) (avail b))) [
      | inl f ↦ (
        record a { current_buffer = some (append b line (pos (length line))) },
        rw (e, f) refl,
        appended-Delivers a b line s e z f,
      )
      | inr f ↦ (
        record a {
          buffers = a.buffers ++ (b ∷ []);
          current_buffer = some (append (spare a.next_buffer) line (pos (length line)));
          next_buffer = none;
        },
        rw (e, f) refl,
        rotated-Delivers a b line s e z h,
      )
    ]

-- A state that only has another place keeps its bytes.
pub same_stream : (a : AsyncLogging) → a.output ++ held a ≡ (a.output ++ held a) ++ []
same_stream a = sym (append-nil (a.output ++ held a))
