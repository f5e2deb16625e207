-- ===== src/Logging/Items.antt =====
-- base/Logging.cc: what a line puts into its stream besides the message.
use dserver.Prelude.{
  ℕ, ◌+◌, ◌≤◌, ◌<◌, ◌≡◌, ap₂, ◌∙◌, inl, inr, some, List, ◌++◌, ◌==◌, length, arith, Bool-cases,
  length-append, codes, subst, if◌then◌else◌, [], ◌∷◌,
}
use dserver.LogStream.{pos, Item, integer_item, string_item}
use dserver.LogStream.Lines.{text, texts, AreWordItems, put_all, put_all_lem}
use dserver.Logging.{
  LogMacro, log_trace, log_debug, log_info, log_warn, log_error, log_fatal, log_syserr,
  log_sysfatal, saved_errno, function_items, error_items,
}
use dserver.Logging.Headers.{with_data}

pub put_all_full :
    (text : List ℕ) (items : List Item)
    → AreWordItems items
    → length text + length (texts items) + 32 ≤ 4000
    → put_all (with_data text) items ≡ some (with_data (text ++ texts items))
put_all_full text items w h =
    let (b, e, l) = put_all_lem (with_data text) items (omega arith) w in
    e ∙ ap₂ (λ size bytes. some (record { size = size; data_ = bytes })) l.same_size (l.full h)

pub function_items-AreWordItems :
    (m : LogMacro) (func : List ℕ)
    → length (texts (function_items m func)) ≤ 4000
    → AreWordItems (function_items m func)
function_items-AreWordItems log_trace func h =
    (omega (arith, length-append func (codes " "), h), (omega arith, tt))
function_items-AreWordItems log_debug func h =
    (omega (arith, length-append func (codes " "), h), (omega arith, tt))
function_items-AreWordItems log_info func h = tt
function_items-AreWordItems log_warn func h = tt
function_items-AreWordItems log_error func h = tt
function_items-AreWordItems log_fatal func h = tt
function_items-AreWordItems log_syserr func h = tt
function_items-AreWordItems log_sysfatal func h = tt

pub saved_errno_le : (m : LogMacro) (errno : ℕ) → saved_errno m errno ≤ errno
saved_errno_le log_trace errno = omega arith
saved_errno_le log_debug errno = omega arith
saved_errno_le log_info errno = omega arith
saved_errno_le log_warn errno = omega arith
saved_errno_le log_error errno = omega arith
saved_errno_le log_fatal errno = omega arith
saved_errno_le log_syserr errno = omega arith
saved_errno_le log_sysfatal errno = omega arith

-- The items that `error_items` gives for an error.
abbrev system_items : (ℕ → List ℕ) → ℕ → List Item
system_items strerror n =
    string_item (some (strerror n))
    ∷ string_item (some (codes " (errno="))
    ∷ integer_item (pos n)
    ∷ string_item (some (codes ") "))
    ∷ []

strerror_fits :
    (strerror : ℕ → List ℕ) (n : ℕ)
    → length (texts (system_items strerror n)) ≤ 4000
    → length (strerror n) < 2147483648
strerror_fits strerror n h = omega (
  arith,
  length-append (strerror n)
      (codes " (errno=" ++ texts (integer_item (pos n) ∷ string_item (some (codes ") ")) ∷ [])),
  h,
)

pub error_items-AreWordItems :
    (strerror : ℕ → List ℕ) (n : ℕ)
    → n < 18446744073709551616
    → length (texts (error_items strerror n)) ≤ 4000
    → AreWordItems (error_items strerror n)
error_items-AreWordItems strerror n h k = elim (Bool-cases (n == 0)) [
  | inl b ↦ rw b tt
  | inr b ↦
      let short =
        subst (λ c. length (texts (if c then [] else system_items strerror n)) ≤ 4000) b k in
      rw b (strerror_fits strerror n short, (omega arith, (h, (omega arith, tt))))
]
