-- ===== src/Start/Auth.antt =====
-- What `parseAuthArgs` of main.go accepts.
use fogping.Prelude.{
  keep, ℕ, suc, ◌+◌, ◌<◌, ◌≡◌, ◌≢◌, refl, sym, subst, ◌⊎◌, inl, inr, false, not, ◌&&◌, ◌||◌, Option,
  none, some, List, [], ◌∷◌, Text, codes, ◌==◌, nat_eq, text_eq, nat_beq_iff, eq_of, ne_of, length,
  leb, arith, All, Bool-cases,
}
use fogping.Prelude.Map.{Map, insert}
use fogping.Prelude.Result.{ok, err, >>=-eq-ok}
use fogping.Start.{
  is_auth, split_args, Words, cut, split, prepend, unknown_key, word_step, gather, pair_up,
  pair_words, parse_auth_args,
}

-- A user and a password, neither empty.
abbrev pub Credential : Text × Text → Type 0
Credential (user, pw) = (user ≢ []) × (pw ≢ [])

length-prepend : (c : ℕ) (words : List Text) → 0 < length (prepend c words)
unfolding prepend
length-prepend c [] = omega arith
length-prepend c (word ∷ words) = omega arith

length-split : (sep : ℕ) (s : Text) → 0 < length (split sep s)
unfolding split
length-split sep [] = omega arith
length-split sep (c ∷ s) = elim (Bool-cases (c == sep)) [
  | inl here ↦ rw here (omega arith)
  | inr on ↦ rw on (length-prepend c (split sep s))
]

abbrev given : Words → ℕ
given w = length w.users + length w.pws

word_step-given :
    (w after : Words) (a : Text) (o : Option (Text × Text))
    → word_step w a o ≡ ok after
    → 0 < given after
unfolding word_step
word_step-given w after a none h = cc
word_step-given w after a (some (k, v)) h =
    elim (Bool-cases (k == codes "user" || k == codes "users")) [
      | inl user ↦
          let e : ok (record w { users = split b',' v }) ≡ ok after = rw user at h in
          let same : record w { users = split b',' v } ≡ after = cc e in
          subst (λ x. 0 < given x) same (omega (arith, length-split b',' v))
      | inr other ↦
          elim (Bool-cases
            (k == codes "passwd" || k == codes "password" || k == codes "passwords")) [
              | inl pass ↦
                  let e : ok (record w { pws = split b',' v }) ≡ ok after = rw (other, pass) at h in
                  let same : record w { pws = split b',' v } ≡ after = cc e in
                  subst (λ x. 0 < given x) same (omega (arith, length-split b',' v))
              | inr unknown ↦
                  let e : err (unknown_key k) ≡ ok after = rw (other, unknown) at h in absurd (cc e)
            ]
    ]

gather-given :
    (args : List Text) (w after : Words) → gather args w ≡ ok after → 0 < given w → 0 < given after
unfolding gather
gather-given [] w after h g = subst (λ x. 0 < given x) (cc h) g
gather-given (a ∷ args) w after h g =
    let (mid, first, rest) = >>=-eq-ok (word_step w a (cut b'=' a)) (gather args) h in
    gather-given args mid after rest (word_step-given w mid a (cut b'=' a) first)

abbrev Sound : Map Text Text → Type 0
Sound m = All Credential m

insert-Sound :
    (user pw : Text) (m : Map Text Text)
    → Credential (user, pw)
    → Sound m
    → Sound (insert user pw m) × (0 < length (insert user pw m))
unfolding insert
insert-Sound user pw [] c all = ((c, tt), omega arith)
insert-Sound user pw (entry ∷ m) c all = elim (Bool-cases (entry.0 == user)) [
  | inl same ↦ rw same ((c, all.1), omega arith)
  | inr other ↦ rw other ((all.0, (insert-Sound user pw m c all.1).0), omega arith)
]

pair_up-Sound :
    (i : ℕ) (users pws : List Text) (m out : Map Text Text)
    → pair_up i users pws m ≡ ok out
    → Sound m
    → Sound out × ((0 < length m) ⊎ (0 < length users) × (0 < length pws) → 0 < length out)
unfolding pair_up
pair_up-Sound i [] pws m out h all =
    let e : m ≡ out = cc h in
    (
      subst Sound e all,
      λ some_left. elim some_left [
        | inl g ↦ subst (λ x. 0 < length x) e g
        | inr (g, _) ↦ absurd (omega (arith, g))
      ],
    )
pair_up-Sound i (user ∷ users) [] m out h all =
    let e : m ≡ out = cc h in
    (
      subst Sound e all,
      λ some_left. elim some_left [
        | inl g ↦ subst (λ x. 0 < length x) e g
        | inr (_, g) ↦ absurd (omega (arith, g))
      ],
    )
pair_up-Sound i (user ∷ users) (pw ∷ pws) m out h all = elim (Bool-cases (user == [])) [
  | inl no_user ↦ absurd (ground (arith, no_user))
  | inr has_user ↦ elim (Bool-cases (pw == [])) [
    | inl no_pw ↦ absurd (ground (arith, has_user, no_pw))
    | inr has_pw ↦
        let rest : pair_up (suc i) users pws (insert user pw m) ≡ ok out =
          rw (has_user, has_pw) at h in
        let (sound, more) = insert-Sound user pw m (ne_of has_user, ne_of has_pw) all in
        let (all_sound, grows) =
          pair_up-Sound (suc i) users pws (insert user pw m) out rest sound in
        (all_sound, λ some_left. grows (inl more))
  ]
]

pair_words-Sound :
    (w : Words) (out : Map Text Text)
    → pair_words w ≡ ok out
    → 0 < given w
    → Sound out × (0 < length out)
unfolding pair_words
pair_words-Sound w out h g = elim (Bool-cases (length w.users == length w.pws)) [
  | inr differ ↦ absurd (ground (arith, differ, nat_beq_iff (length w.users) (length w.pws)))
  | inl same ↦
      let some_words : (leb (length w.users) 0 && leb (length w.pws) 0) ≡ false = ground arith in
      let paired : pair_up 0 w.users w.pws [] ≡ ok out = rw (some_words, same) at h in
      let e : length w.users ≡ length w.pws = eq_of same in
      let (sound, grows) = pair_up-Sound 0 w.users w.pws [] out paired tt in
      (sound, grows (inr (omega (arith, e, g), omega (arith, e, g))))
]

-- The words of the command line that are accepted give at least one user, and no user or password is
-- empty; only without any such word is there no user, which leaves the console open.
pub parse_auth_args_closed :
    (args : List Text) (users : Map Text Text)
    → parse_auth_args args ≡ ok users
    → (args ≡ []) × (users ≡ []) ⊎ All Credential users × (0 < length users)
unfolding parse_auth_args pair_words gather
parse_auth_args_closed [] users h = let e : [] ≡ users = cc h in inl (refl, sym e)
parse_auth_args_closed (a ∷ args) users h =
    let none_yet : Words = record { users = []; pws = [] } in
    let (w, gathered, paired) = >>=-eq-ok (gather (a ∷ args) none_yet) pair_words h in
    let (mid, first, rest) = >>=-eq-ok (word_step none_yet a (cut b'=' a)) (gather args) gathered in
    inr (
      pair_words-Sound w users paired
        (gather-given args mid w rest (word_step-given none_yet mid a (cut b'=' a) first)))

-- `splitArgs` sorts the arguments into flags and words for the log-in, and keeps the order of each.
pub split_args-keep :
    (args : List Text) → split_args args ≡ (keep (λ a. not (is_auth a)) args, keep is_auth args)
unfolding split_args
split_args-keep [] = refl
split_args-keep (a ∷ args) = elim (Bool-cases (is_auth a)) [
  | inl word ↦ rw (word, split_args-keep args) refl
  | inr flag ↦ rw (flag, split_args-keep args) refl
]
