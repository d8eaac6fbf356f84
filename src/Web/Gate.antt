-- ===== src/Web/Gate.antt =====
-- What a request must bring before a handler of web.go may write.
use fogping.Prelude.{
  ℕ, ◌+◌, ◌≤◌, ◌≡◌, refl, sym, ap, ◌∙◌, ◌⊎◌, inl, inr, Bool, true, false, Option, none, some, [],
  Text, if◌then◌else◌, ◌==◌, eq_of, text_eq, nat_eq, text_beq_iff, length, leb, arith, Bool-cases,
  Option-cases,
}
use fogping.Prelude.Map.{lookup, lookup-insert}
use fogping.Web.{
  week, Sessions, issue, valid, Console, Request, authed, same_origin, Call, handle, serve_write,
}

-- The request has a session that has not expired, or there are no users.
abbrev pub Admitted : Request → Console → Type 0
Admitted r c =
    (length c.users ≤ 0)
    ⊎ ((token : Text) × (expiry : ℕ) × (r.cookie ≡ some token)
        × (lookup token c.sessions ≡ some expiry)
        × (r.now ≤ expiry))

-- The request comes from no page, or from a page of this host.
abbrev pub Local : (Text → Option Text) → Request → Type 0
Local host_of r = (r.origin ≡ []) ⊎ (host_of (r.origin) ≡ some r.host)

valid-Admitted :
    (token : Text) (now : ℕ) (m : Sessions)
    → (valid token now m).0 ≡ true
    → (expiry : ℕ) × (lookup token m ≡ some expiry) × (now ≤ expiry)
unfolding valid
valid-Admitted token now m h = elim (Option-cases (lookup token m)) [
  | inl absent ↦ absurd (ground arith)
  | inr (expiry, known) ↦ (expiry, known, ground arith)
]

pub authed-Admitted : (r : Request) (c : Console) → (authed r c).0 ≡ true → Admitted r c
unfolding authed
authed-Admitted r c h = elim (Bool-cases (leb (length c.users) 0)) [
  | inl free ↦ inl (ground arith)
  | inr users ↦ elim (Option-cases r.cookie) [
    | inl bare ↦ absurd (ground arith)
    | inr (token, cookie) ↦
        let (expiry, known, lasts) = valid-Admitted token r.now c.sessions (ground arith) in
        inr (token, expiry, cookie, known, lasts)
  ]
]

same_origin-Local :
    (host_of : Text → Option Text) (r : Request) → same_origin host_of r ≡ true → Local host_of r
unfolding same_origin
same_origin-Local host_of r h = elim (Bool-cases (r.origin == [])) [
  | inl bare ↦ inl (eq_of bare)
  | inr page ↦ elim (Option-cases (host_of (r.origin))) [
    | inl bad ↦ absurd (ground arith)
    | inr (host, parsed) ↦ inr (ground (arith, text_beq_iff host r.host))
  ]
]

-- A request that writes changes the table only on a console that is editable, with a session that
-- has not expired where there are users, and from no other site's page; then the answer and the
-- table are those of its handler.
pub serve_write-Admitted :
    (host_of : Text → Option Text) (r : Request) (call : Call) (c : Console)
    → ((serve_write host_of r call c).1.table ≡ c.table)
      ⊎ (c.editable ≡ true)
        × Admitted r c
        × Local host_of r
        × ((serve_write host_of r call c).0 ≡ (handle call c.table).0)
        × ((serve_write host_of r call c).1.table ≡ (handle call c.table).1)
unfolding serve_write
serve_write-Admitted host_of r call c = elim (Bool-cases (authed r c).0) [
  | inr stranger ↦ inl (rw stranger refl)
  | inl passed ↦ elim (Bool-cases c.editable) [
    | inr fixed ↦ inl (rw (passed, fixed) refl)
    | inl editable ↦ elim (Bool-cases (same_origin host_of r)) [
      | inr foreign ↦ inl (rw (passed, editable, foreign) refl)
      | inl local ↦ inr (
        editable,
        authed-Admitted r c passed,
        same_origin-Local host_of r local,
        rw (passed, editable, local) refl,
        rw (passed, editable, local) refl,
      )
    ]
  ]
]

lasts : ℕ → Option ℕ → Bool
lasts now none = false
lasts now (some expiry) = leb now expiry

valid-lookup :
    (token : Text) (now : ℕ) (m : Sessions) → (valid token now m).0 ≡ lasts now (lookup token m)
unfolding valid lasts
valid-lookup token now m = elim (Option-cases (lookup token m)) [
  | inl absent ↦ rw (absent, valid) refl
  | inr (expiry, known) ↦ ground (arith, known)
]

-- A token is valid from its issue for a week, to the nanosecond; no other token is touched.
pub valid-issue :
    (token other : Text) (at now : ℕ) (m : Sessions)
    → (valid other now (issue token at m)).0
      ≡ (if token == other then leb now (at + week) else (valid other now m).0)
unfolding issue
valid-issue token other at now m =
    valid-lookup other now (issue token at m)
    ∙ ap (lasts now) (lookup-insert token other (at + week) m)
    ∙ (elim (Bool-cases (token == other)) [
      | inl same ↦ rw same (unfold lasts in refl)
      | inr apart ↦ rw apart (sym (valid-lookup other now m))
    ])
