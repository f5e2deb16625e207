-- ===== src/AsyncLogging/Turns.antt =====
-- base/AsyncLogging.cc, `threadFunc`: each step of the thread that writes.
use dserver.Prelude.{
  ℕ, ◌+◌, ◌≡◌, refl, ap, subst, ◌∙◌, inl, inr, true, Option, none, some, [], ◌∷◌, ◌++◌, length,
  arith, Bool-cases, length-append, append-nil,
}
use dserver.LogStream.{FixedBuffer}
use dserver.AsyncLogging.{
  Place, at_test, in_section, behind_section, ended, AsyncLogging, all_data, test_running,
  swap_buffers, is_reset, give_spare,
}
use dserver.AsyncLogging.Invariant.{
  IsBlank, IsInUse, IsCovered, IsPlaced, IsSound, data_of, held, Delivers, AreLarge-append,
  all_data-append, same_stream, in_use_cases,
}

blank_is_reset : (p : Option FixedBuffer) → IsBlank p → is_reset p ≡ true
blank_is_reset none h = absurd h
blank_is_reset (some b) (s, d) = rw d refl

blank-IsInUse : (p : Option FixedBuffer) → IsBlank p → IsInUse p
blank-IsInUse none h = absurd h
blank-IsInUse (some b) (s, d) = s

data_of-blank : (p : Option FixedBuffer) → IsBlank p → data_of p ≡ []
data_of-blank none h = absurd h
data_of-blank (some b) (s, d) = d

given_next :
    (p q : Option FixedBuffer) → IsCovered p 1 1 → IsBlank q → IsCovered (give_spare p q).0 1 0
given_next none none c h = absurd h
given_next none (some n) c h = h
given_next (some b) q c h = c

-- The second new buffer was given away only if two buffers are to be written.
given_new :
    (p q : Option FixedBuffer) (n m : ℕ)
    → IsCovered p 1 n
    → IsBlank q
    → m ≡ n + 1
    → IsCovered (give_spare p q).1 2 m
given_new none q n m c h e = omega arith
given_new (some b) none n m c h e = absurd h
given_new (some b) (some d) n m c h e = h

IsCovered-some : (p : Option FixedBuffer) (n : ℕ) → IsCovered p 1 n → IsCovered p 1 1
IsCovered-some none n c = omega arith
IsCovered-some (some b) n c = c

swapped_stream :
    (a : AsyncLogging) (b : FixedBuffer)
    → IsBlank a.new_buffer1
    → a.current_buffer ≡ some b
    → a.buffers_to_write ≡ []
    → a.output ++ (all_data (a.buffers ++ (b ∷ [])) ++ ([] ++ data_of a.new_buffer1))
      ≡ (a.output ++ held a) ++ []
swapped_stream a b x e n =
    ap (λ xs. a.output ++ (all_data (a.buffers ++ (b ∷ [])) ++ xs)) (data_of-blank a.new_buffer1 x)
    ∙ ap (λ xs. a.output ++ (xs ++ [])) (all_data-append a.buffers b)
    ∙ simp (n, e, append-nil)

-- The buffers in use are empty, and those that were are to be written.
pub record Swapped (a a' : AsyncLogging) : Type 0 where
  pub now_behind : a'.place ≡ behind_section
  pub no_buffers : a'.buffers ≡ []
  pub no_current : data_of a'.current_buffer ≡ []
  pub counts : length a'.buffers_to_write ≡ length a.buffers + 1
  pub same_drops : a'.has_dropped ≡ a.has_dropped

-- A logger that runs goes on into the section, and nothing else changes.
pub record Entered (a a' : AsyncLogging) : Type 0 where
  pub goes_on : a.running ≡ true → a'.place ≡ in_section
  pub same_buffers : a'.buffers ≡ a.buffers
  pub same_output : a'.output ≡ a.output
  pub same_held : held a' ≡ held a
  pub same_drops : a'.has_dropped ≡ a.has_dropped

module _ (a : AsyncLogging) (s : IsSound a) where
  placed-Delivers :
      (p : Place)
      → IsPlaced p a.new_buffer1 a.new_buffer2 a.buffers_to_write
      → Delivers a [] (record a { place = p })
  placed-Delivers p q = record {
    sound = record {
      current_lem = s.current_lem;
      next_lem = s.next_lem;
      buffers_lem = s.buffers_lem;
      to_write_lem = s.to_write_lem;
      place_lem = q;
    };
    still_dropped = λ d. d;
    stream = λ d. same_stream a;
  }

  entered : (p : Place) → (a.running ≡ true → p ≡ in_section) → Entered a (record a { place = p })
  entered p h = record {
    goes_on = h;
    same_buffers = refl;
    same_output = refl;
    same_held = refl;
    same_drops = refl;
  }

  pub test_running-Delivers :
      a.place ≡ at_test
      → (a' : AsyncLogging) × (test_running a ≡ some a') × Delivers a [] a' × Entered a a'
  unfolding test_running
  test_running-Delivers p =
      let (x, y, z) =
        subst (λ q. IsPlaced q a.new_buffer1 a.new_buffer2 a.buffers_to_write) p s.place_lem in
      elim (Bool-cases a.running) [
        | inl r ↦ (
          record a { place = in_section },
          rw (r, blank_is_reset a.new_buffer1 x, blank_is_reset a.new_buffer2 y, z) refl,
          placed-Delivers in_section (x, y, z),
          entered in_section (λ r. refl),
        )
        | inr r ↦ (
          record a { place = ended },
          rw r refl,
          placed-Delivers ended tt,
          entered ended (λ q. absurd (ground (arith, q, r))),
        )
      ]

  pub swap_buffers-Delivers :
      a.place ≡ in_section
      → (a' : AsyncLogging) × (swap_buffers a ≡ some a') × Delivers a [] a' × Swapped a a'
  unfolding swap_buffers
  swap_buffers-Delivers p =
      let (b, e, z) = in_use_cases a.current_buffer s.current_lem in
      let (x, y, n) =
        subst (λ q. IsPlaced q a.new_buffer1 a.new_buffer2 a.buffers_to_write) p s.place_lem in
      let l = length-append a.buffers (b ∷ []) in
      (
        record a {
          current_buffer = a.new_buffer1;
          new_buffer1 = none;
          buffers_to_write = a.buffers ++ (b ∷ []);
          buffers = [];
          next_buffer = (give_spare a.next_buffer a.new_buffer2).0;
          new_buffer2 = (give_spare a.next_buffer a.new_buffer2).1;
          place = behind_section;
        },
        rw e refl,
        record {
          sound = record {
            current_lem = blank-IsInUse a.new_buffer1 x;
            next_lem =
                given_next a.next_buffer a.new_buffer2
                  (IsCovered-some a.next_buffer (length a.buffers) s.next_lem) y;
            buffers_lem = tt;
            to_write_lem = AreLarge-append a.buffers b s.buffers_lem z;
            place_lem = (
              refl,
              omega (arith, l),
              given_new a.next_buffer a.new_buffer2 (length a.buffers)
                  (length (a.buffers ++ (b ∷ []))) s.next_lem y l,
            );
          };
          still_dropped = λ d. d;
          stream = λ d. swapped_stream a b x e n;
        },
        record {
          now_behind = refl;
          no_buffers = refl;
          no_current = data_of-blank a.new_buffer1 x;
          counts = l;
          same_drops = refl;
        },
      )
