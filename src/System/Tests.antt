-- ===== src/System/Tests.antt =====
-- A login and the deletion of a target, in a program that has just started.
use fogping.Prelude.{
  ℕ, ◌≡◌, refl, sym, subst, ◌∙◌, inl, inr, false, none, some, [], ◌∷◌, ◌++◌, codes, ◌==◌, nat_eq,
  text_eq, eq_of, arith, Bool-cases,
}
use fogping.Config.{TargetCfg}
use fogping.Config.Tests.{site}
use fogping.Targets.Tests.{two, two-IsValid}
use fogping.Store.{Memory, Round}
use fogping.Store.Live.{append, ring_of, ring_cap}
use fogping.Store.Ring.{last_of}
use fogping.Store.Known.{Known}
use fogping.Runner.Names.{Apart}
use fogping.Store.Ensure.{Access, readable}
use fogping.Store.Tests.{whole_numbers}
use fogping.Runner.Reload.{Works}
use fogping.Prelude.Map.{lookup, insert}
use fogping.Targets.{deactivate_target}
use fogping.Targets.Rows.{find_id}
use fogping.Web.{
  Call, delete_target, login, serve_write, authed, valid, issue, same_origin, handle, path_id,
  parse_int,
}
use fogping.Web.Tests.{console, no_urls, request}
use fogping.System.{System, reloads, serve}
use fogping.System.Recorded.{IsHeard, probe_heard}
use fogping.System.Synced.{Run, begin, and_then, entered, probed, IsSane, Synced, serve-Synced}

abbrev idle : Memory ℕ
idle = record { ids = []; rings = []; names = []; total = 0; pending = [] }

abbrev started : System ℕ
started = record { console = record console { table = two }; live = []; memory = idle }

abbrev entered_by_ann : System ℕ
entered_by_ann = record started {
  console =
      (login (codes "POST") (codes "ann") (codes "secret") (codes "t1") 1
        (record console { table = two })).1;
}

abbrev access : ℕ → Access
access id = readable 60 60

abbrev remove_first : Call
remove_first = delete_target none (codes "1")

works : Works access
works id = (refl, refl)

sane : IsSane started
sane = record { valid = two-IsValid; keyed = tt }

run : Run whole_numbers no_urls started entered_by_ann
run = and_then begin (entered (codes "POST") (codes "ann") (codes "secret") (codes "t1") 1)

answered : (serve whole_numbers [] no_urls access none request remove_first entered_by_ann).0 ≡ 200
unfolding serve serve_write authed login lookup valid issue insert same_origin handle path_id
    parse_int deactivate_target find_id
answered = refl

serve-Synced_example :
    Synced (serve whole_numbers [] no_urls access none request remove_first entered_by_ann).1
    × IsSane (serve whole_numbers [] no_urls access none request remove_first entered_by_ann).1
serve-Synced_example =
    serve-Synced whole_numbers [] no_urls access request remove_first sane run works answered
      (unfold reloads in refl)

abbrev probing : System ℕ
probing = record started {
  live = (1, record site { id = 1 }) ∷ [];
  memory = record idle { ids = (site.name, 1) ∷ []; rings = (site.name, []) ∷ [] };
}

abbrev round_60 : Round ℕ
round_60 = record { t = 60; s = 2; r = 1; ms = 7 ∷ []; b = false; z = 0 }

abbrev probed_once : System ℕ
probed_once = record probing {
  memory = (append whole_numbers none site.name round_60 (probing.memory, [])).1;
}

only_site :
    (id : ℕ) (cfg : TargetCfg)
    → lookup id probing.live ≡ some cfg
    → (1 ≡ id) × (record site { id = 1 } ≡ cfg)
unfolding lookup
only_site id cfg h = elim (Bool-cases (1 == id)) [
  | inl this ↦ (eq_of this, ground (arith, this, h))
  | inr other ↦ absurd (ground (arith, other, h))
]

probing-IsHeard : IsHeard probing
unfolding lookup
probing-IsHeard = record {
  apart = λ i j a b p q same. sym ((only_site i a p).0) ∙ (only_site j b q).0;
  recorded = λ id cfg h.
      subst (λ (t : TargetCfg). Known t.name probing.memory) (only_site id cfg h).1 (1, refl);
}

probing-IsSane : IsSane probing
unfolding lookup
probing-IsSane = record { valid = two-IsValid; keyed = (refl, tt) }

one_round : Run whole_numbers no_urls probing probed_once
one_round = and_then begin (probed none site.name round_60 [])

probe_heard_example :
    Apart probed_once.live
    × (ring_of (
          lookup site.name
            (append whole_numbers none site.name round_60 (probed_once.memory, [])).1.rings)
        ≡ last_of ring_cap (ring_of (lookup site.name probed_once.memory.rings) ++ round_60 ∷ []))
    × ((append whole_numbers none site.name round_60 (probed_once.memory, [])).1.ids
        ≡ probed_once.memory.ids)
probe_heard_example =
    probe_heard whole_numbers no_urls 1 (record site { id = 1 }) none round_60 [] probing-IsSane
      probing-IsHeard one_round (unfold lookup in refl)
