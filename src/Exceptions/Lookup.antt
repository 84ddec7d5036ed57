-- ===== src/Exceptions/Lookup.antt =====
-- `getExceptionCode` against the table that it searches.
use blockchain_task_server.Common.{
  String, Bool, true, false, ◌||◌, Option, none, some, List, [], ◌∷◌, ◌≡◌, ◌≢◌, refl, arith, str_eq,
  eq_iff, if◌then◌else◌, ◌&&◌, Option-cases, inl, inr,
}
use blockchain_task_server.Exceptions.{Entry, exception_codes, get_exception_code}

-- `ExceptionCode[key]`
unfoldable pub message_at : String → List Entry → Option String
message_at key [] = none
message_at key ((k, message) ∷ rest) = if str_eq k key then some message else message_at key rest

is_some_key : String → Option String → Bool
is_some_key key none = false
is_some_key key (some k) = str_eq k key

is_found : Entry → Bool
is_found (key, message) =
    str_eq message ""
    || (str_eq message "Validation error" || is_some_key key (get_exception_code message))

all_found : List Entry → Bool
all_found [] = true
all_found (e ∷ es) = is_found e && all_found es

all_found-codes : all_found exception_codes ≡ true
unfolding all_found is_found is_some_key get_exception_code
all_found-codes = refl

found_at :
    (es : List Entry) (key message : String)
    → all_found es ≡ true
    → message_at key es ≡ some message
    → is_found (key, message) ≡ true
unfolding all_found message_at
found_at [] key message h e = cc
found_at ((k, m) ∷ es) key message h e = ground (arith, eq_iff k key, found_at es key message)

is_found-some :
    (key message : String)
    → is_found (key, message) ≡ true
    → message ≢ ""
    → message ≢ "Validation error"
    → get_exception_code message ≡ some key
unfolding is_found is_some_key
is_found-some key message h ne ne' = elim (Option-cases (get_exception_code message)) [
  | inl e ↦ ground (arith, eq_iff message "", eq_iff message "Validation error")
  | inr (k, e) ↦ ground (arith, eq_iff message "", eq_iff message "Validation error", eq_iff k key)
]

-- Every member of the enum whose message is neither empty nor `Validation error` is found under its
-- own key by its message.
pub get_exception_code-message_at :
    (key message : String)
    → message_at key exception_codes ≡ some message
    → message ≢ ""
    → message ≢ "Validation error"
    → get_exception_code message ≡ some key
get_exception_code-message_at key message e =
    is_found-some key message (found_at exception_codes key message all_found-codes e)
