-- ===== src/Runner/Tests.antt =====
-- Runs of runner.go on a few probes.
use fogping.Prelude.{
  ℕ, ◌≡◌, ◌≢◌, ◌⊎◌, refl, sym, subst, ap, ◌∙◌, inl, inr, ◌==◌, eq_of, arith, Bool-cases, none, some,
  [], ◌∷◌, Text, codes, nat_eq, text_eq,
}
use fogping.Prelude.Map.{Map, lookup, insert, remove}
use fogping.Config.{TargetCfg}
use fogping.Config.Tests.{site}
use fogping.Targets.Rows.{find_id}
use fogping.Targets.Tests.{two, two-IsValid}
use fogping.Store.{Memory}
use fogping.Store.Live.{rename_target}
use fogping.Store.Ensure.{Access, readable}
use fogping.Store.Tests.{whole_numbers}
use fogping.Targets.{active_targets}
use fogping.Runner.{World, wanted, apply_wanted, reload}
use fogping.Runner.Stopped.{Ready, Owned, Only}
use fogping.Runner.Attributed.{reload-Owned}
use fogping.Runner.Diff.{Keyed, apply_wanted_lem}
use fogping.Runner.Reload.{Works, active_cfg, reload_runs_active}

abbrev old_site : TargetCfg
old_site = record site { id = 1; host = codes "old.example.org" }

abbrev new_site : TargetCfg
new_site = record site { id = 1 }

abbrev one_wanted : Map ℕ TargetCfg
one_wanted = (1, new_site) ∷ []

abbrev world : World ℕ
world = record {
  live = (1, old_site) ∷ [];
  memory = record {
    ids = (site.name, 1) ∷ [];
    rings = (site.name, []) ∷ [];
    names = site.name ∷ [];
    total = 0;
    pending = [];
  };
  table = two;
}

abbrev access : ℕ → Access
access id = readable 60 60

world-Keyed : Keyed world.live
unfolding lookup
world-Keyed = (refl, tt)

one_wanted-Keyed : Keyed one_wanted
unfolding lookup
one_wanted-Keyed = (refl, tt)

apply_wanted_lem_example :
    (lookup 1 (apply_wanted whole_numbers access [] one_wanted world).live ≡ lookup 1 one_wanted)
    ⊎ (lookup 1 (apply_wanted whole_numbers access [] one_wanted world).live ≡ none)
      × (lookup 1 world.live ≢ lookup 1 one_wanted)
apply_wanted_lem_example =
    apply_wanted_lem whole_numbers access [] one_wanted world 1 one_wanted-Keyed world-Keyed

access-Works : Works access
access-Works id = (refl, refl)

reload_runs_active_example :
    ((reload whole_numbers access [] none world).0 ≡ none)
    × (lookup 1 (reload whole_numbers access [] none world).1.live
        ≡ active_cfg (find_id 1 two.rows) none)
reload_runs_active_example =
    reload_runs_active whole_numbers access [] world 1 access-Works two-IsValid world-Keyed

abbrev a : Text
a = codes "a"

abbrev b : Text
b = codes "b"

abbrev c : Text
c = codes "c"

abbrev chain : Memory ℕ
chain = record {
  ids = (a, 1) ∷ (b, 2) ∷ [];
  rings = (a, []) ∷ (b, []) ∷ [];
  names = a ∷ b ∷ [];
  total = 0;
  pending = [];
}

-- Two renames that one reload meets, `a` to `b` before `b` to `c`, leave `c` with the id of `a`.
chained : lookup c (rename_target b c (rename_target a b chain)).ids ≡ some 1
unfolding lookup rename_target insert remove
chained = refl

-- The site ran under another name.
abbrev old_name : TargetCfg
old_name = record site { id = 1; name = codes "old" }

abbrev renamed : World ℕ
renamed = record {
  live = (1, old_name) ∷ [];
  memory = record {
    ids = (codes "old", 1) ∷ [];
    rings = (codes "old", []) ∷ [];
    names = codes "old" ∷ [];
    total = 0;
    pending = [];
  };
  table = two;
}

only_old :
    (id : ℕ) (cfg : TargetCfg) → lookup id renamed.live ≡ some cfg → (1 ≡ id) × (old_name ≡ cfg)
unfolding lookup
only_old id cfg h = elim (Bool-cases (1 == id)) [
  | inl this ↦ (eq_of this, ground (arith, this, h))
  | inr other ↦ absurd (ground (arith, other, h))
]

renamed-Ready : Ready (wanted (active_targets two) []) renamed.live renamed.memory
unfolding lookup
renamed-Ready = record {
  keyed = (refl, tt);
  apart = λ i j a b p q same. sym (only_old i a p).0 ∙ (only_old j b q).0;
  clear = λ i j a b t p wants moved q.
      let same : a ≡ b = sym (only_old i a p).1 ∙ (only_old j b q).1 in
      subst (λ (c : TargetCfg). t.name ≢ c.name) same moved;
  owned = λ id cfg h.
      let (key, same) = only_old id cfg h in
      subst (λ (c : TargetCfg). lookup c.name renamed.memory.ids ≡ some id) same (ap some key);
}

renamed-Only : Only renamed.live renamed.memory
unfolding lookup
renamed-Only name k h = elim (Bool-cases (codes "old" == name)) [
  | inl this ↦
      let key : 1 ≡ k = ground (arith, this, h) in
      (old_name, subst (λ i. lookup i renamed.live ≡ some old_name) key refl, eq_of this)
  | inr other ↦ absurd (ground (arith, other, h))
]

reload-Owned_example :
    Owned
      (reload whole_numbers access [] none renamed).1.live
      (reload whole_numbers access [] none renamed).1.memory
    × Only
        (reload whole_numbers access [] none renamed).1.live
        (reload whole_numbers access [] none renamed).1.memory
reload-Owned_example =
    reload-Owned whole_numbers access [] none renamed two-IsValid renamed-Ready renamed-Only
