-- ===== src/Start/Boot.antt =====
-- The program of main.go as it starts to serve.
use fogping.Prelude.{
  ℕ, ◌≡◌, refl, sym, subst, ap, ◌∙◌, Option, none, some, List, [], Text, ◌==◌, nat_eq,
  either_branch,
}
use fogping.Prelude.Map.{Map}
use fogping.Prelude.Result.{ok}
use fogping.Float.{Float}
use fogping.Config.{
  Config, IsNormal, normalize_target, trim_fields, check_port, bad_host, check_pace, bad_interval,
  default_name, bad_name,
}
use fogping.Strings.{trim_space, byte_len, is_control}
use fogping.Config.Normal.{normalize_target-IsNormal}
use fogping.Targets.{Effect, create_target, target_rows}
use fogping.Targets.Rows.{Table}
use fogping.Targets.Validity.{IsValid}
use fogping.Targets.Steps.{create_target-IsValid}
use fogping.Store.{RoundRow}
use fogping.Store.Ensure.{Access}
use fogping.Runner.{reload}
use fogping.Runner.Reload.{Works}
use fogping.System.{System, reloaded}
use fogping.System.Recorded.{IsHeard, idle-IsHeard, reloaded-IsHeard}
use fogping.System.Synced.{IsSane, Synced, reloaded-IsSane, reloaded-Synced}
use fogping.Start.Launch.{demo_target, seed, begun, boot, empty_memory}

some_inj : {A : Type 0} {a b : A} → some a ≡ some b → a ≡ b
some_inj {a = a} {b = b} h = cc h

demo_target_fixed : normalize_target demo_target ≡ ok demo_target
unfolding normalize_target check_port trim_fields trim_space bad_host byte_len check_pace
    bad_interval bad_name default_name is_control
demo_target_fixed = refl

demo_target-IsNormal : IsNormal demo_target
demo_target-IsNormal = normalize_target-IsNormal demo_target demo_target demo_target_fixed

seed-IsValid :
    (count : Option Text) (effect : Effect) (select : Option Text) (table : Table)
    → IsValid table
    → IsValid (seed count effect select table)
unfolding seed
seed-IsValid (some e) effect select table v = v
seed-IsValid none effect select table v =
    either_branch IsValid (target_rows table == 0) (create_target effect select demo_target table).1
      table (create_target-IsValid effect select demo_target table demo_target-IsNormal v) v

module _ (float : Float) (rows : List (RoundRow (float.F))) where
  open float use {F}

  -- The program before its first reload.
  abbrev pub unstarted : Config → Map Text Text → Table → System F
  unstarted cfg users table = record {
    console = record { users = users; editable = cfg.editable; sessions = []; table = table };
    live = [];
    memory = empty_memory float rows;
  }

  boot-reloaded :
      (access : ℕ → Access) (fault count : Option Text) (effect : Effect) (select : Option Text)
      (cfg : Config) (users : Map Text Text) (table : Table) (s : System F)
      → boot float rows access fault count effect select cfg users table ≡ some s
      → (fault ≡ none)
        × (reloaded float rows access none (unstarted cfg users (seed count effect select table))
            ≡ s)
  unfolding boot begun reload reloaded
  boot-reloaded access (some e) count effect select cfg users table s h = absurd (cc h)
  boot-reloaded access none count effect select cfg users table s h = (refl, some_inj h)

  -- From a valid table, of which an empty one gets the demo target first, and where no
  -- `EnsureTarget` fails: a program that starts has the users and the right to edit that the
  -- command line gave, no session, a valid table, one probe for an id, each with its own name that
  -- the store knows, and just the active rows are probed, each with its settings.
  pub boot-Synced :
      (access : ℕ → Access) (fault count : Option Text) (effect : Effect) (select : Option Text)
      (cfg : Config) (users : Map Text Text) (table : Table) (s : System F)
      → IsValid table
      → Works access
      → boot float rows access fault count effect select cfg users table ≡ some s
      → Synced s
        × IsSane s
        × IsHeard s
        × (s.console.users ≡ users)
        × (s.console.editable ≡ cfg.editable)
        × (s.console.sessions ≡ [])
  boot-Synced access fault count effect select cfg users table s v works h =
      let (fine, same) = boot-reloaded access fault count effect select cfg users table s h in
      let seeded : Table = seed count effect select table in
      let sane : IsSane (unstarted cfg users seeded) = record {
        valid = seed-IsValid count effect select table v;
        keyed = tt;
      } in
      let heard : IsHeard (unstarted cfg users seeded) =
        idle-IsHeard (unstarted cfg users seeded) refl in
      (
        subst Synced same
            (reloaded-Synced float rows access (unstarted cfg users seeded) works sane),
        subst IsSane same
            (reloaded-IsSane float rows access none (unstarted cfg users seeded) sane),
        subst IsHeard same
            (reloaded-IsHeard float access rows none (unstarted cfg users seeded) sane heard),
        ap (λ (x : System F). x.console.users) (sym same) ∙ unfold reloaded in refl,
        ap (λ (x : System F). x.console.editable) (sym same) ∙ unfold reloaded in refl,
        ap (λ (x : System F). x.console.sessions) (sym same) ∙ unfold reloaded in refl,
      )
