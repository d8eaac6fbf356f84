-- ===== src/Start.antt =====
-- The command line of main.go: which arguments are flags, who may log in, and the port that is
-- shown.
pub mod Auth
pub mod Launch
pub mod Guarded
pub mod Boot
pub mod Housekeeping
pub mod Tests
use fogping.Prelude.{
  ℕ, suc, ◌+◌, Bool, true, false, not, ◌&&◌, ◌||◌, Option, none, some, List, [], ◌∷◌, Text, codes,
  if◌then◌else◌, ◌==◌, nat_eq, text_eq, length, any, leb, reverse,
}
use fogping.Prelude.Map.{Map, insert}
use fogping.Prelude.Result.{Result, ok, err, ◌>>=◌, ◌>>◌, guard}

abbrev pub opens_flag : Text → Bool
opens_flag [] = false
opens_flag (c ∷ s) = c == b'-'

unfoldable pub is_auth : Text → Bool
is_auth a = not (opens_flag a) && any (λ c. c == b'=') a

-- The flags and the words for `parse_auth_args`, each in order.
unfoldable pub split_args : List Text → List Text × List Text
split_args [] = ([], [])
split_args (a ∷ args) =
    let (flags, auth) = split_args args in
    if is_auth a then (flags, a ∷ auth) else (a ∷ flags, auth)

-- strings.Cut at the first `sep`
unfoldable pub cut : ℕ → Text → Option (Text × Text)
cut sep [] = none
cut sep (c ∷ s) =
    let rest = cut sep s in
    if c == sep then some ([], s) else elim rest [ none ↦ none | some (k, v) ↦ some (c ∷ k, v) ]

prepend : ℕ → List Text → List Text
prepend c [] = (c ∷ []) ∷ []
prepend c (word ∷ words) = (c ∷ word) ∷ words

-- strings.Split by one character
unfoldable pub split : ℕ → Text → List Text
unfolding prepend
split sep [] = [] ∷ []
split sep (c ∷ s) = let rest = split sep s in if c == sep then [] ∷ rest else prepend c rest

-- The errors of `parseAuthArgs`, with what each quotes.
pub data AuthError : Type 0 where
  unrecognized unknown_key : Text → AuthError
  count_differs : ℕ → ℕ → AuthError
  empty_at : ℕ → AuthError

pub record Words : Type 0 where
  pub users : List Text
  pub pws : List Text

-- One turn of the first loop; a later word of a kind replaces an earlier one.
word_step : Words → Text → Option (Text × Text) → Result AuthError Words
word_step w a none = err (unrecognized a)
word_step w a (some (k, v)) =
    if k == codes "user" || k == codes "users"
    then ok (record w { users = split b',' v })
    else if k == codes "passwd" || k == codes "password" || k == codes "passwords"
    then ok (record w { pws = split b',' v })
    else err (unknown_key k)

unfoldable pub gather : List Text → Words → Result AuthError Words
unfolding word_step
gather [] w = ok w
gather (a ∷ args) w = word_step w a (cut b'=' a) >>= gather args

-- The second loop; `i` counts the pairs before. Its lists have one length.
unfoldable pub pair_up :
    ℕ → List Text → List Text → Map Text Text → Result AuthError (Map Text Text)
pair_up i (user ∷ users) (pw ∷ pws) m =
    guard (not (user == [] || pw == [])) (empty_at (i + 1))
    >> pair_up (suc i) users pws (insert user pw m)
pair_up i users pws m = ok m

pair_words : Words → Result AuthError (Map Text Text)
pair_words w =
    if leb (length w.users) 0 && leb (length w.pws) 0
    then ok []
    else guard (length w.users == length w.pws) (count_differs (length w.users) (length w.pws))
      >> pair_up 0 w.users w.pws []

-- No map and an empty map are the same to the callers.
unfoldable pub parse_auth_args : List Text → Result AuthError (Map Text Text)
unfolding pair_words
parse_auth_args args = gather args (record { users = []; pws = [] }) >>= pair_words

-- The loop of `portOf`, from the end.
port_from : Text → Text → Text
port_from [] seen = codes ":8518"
port_from (c ∷ s) seen = let rest = port_from s (c ∷ seen) in if c == b':' then c ∷ seen else rest

unfoldable pub port_of : Text → Text
unfolding port_from
port_of listen = port_from (reverse listen) []
