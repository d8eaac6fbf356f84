-- ===== src/Web/Read.antt =====
-- The requests of web.go that read: the list of targets, its export, and the series of a target. The
-- export's handler is in targetsio.go.
use fogping.Prelude.{
  ℕ, ◌+◌, ◌-◌, ◌*◌, ◌^◌, Bool, true, false, not, ◌&&◌, ◌||◌, Option, none, some, List, [], ◌∷◌,
  ◌++◌, map, Text, codes, if◌then◌else◌, ◌==◌, text_eq, nat_eq, last?, ltb, leb,
}
use fogping.Prelude.Int.{ℤ, pos, negsuc, sub_ℕ, int_eq}
use fogping.Prelude.Map.{Map}
use fogping.Config.{TargetCfg, ProbeCfg, normal, max_days, target_addr}
use fogping.Config.Pace.{probe_params}
use fogping.Float.{Float}
use fogping.Targets.{active_targets}
use fogping.Targets.Rows.{Table}
use fogping.TargetsIo.Rows.{TargetsFile, export_targets}
use fogping.Store.{Round, Memory, RoundRow}
use fogping.Store.Stats.{Stats, calc_stats}
use fogping.Store.Recent.{recent}
use fogping.Store.Rollup.{HourlyRow}
use fogping.Store.Sched.{unix}
use fogping.Store.Query.{Cursor, Series, read_range}
use fogping.Runner.{running}
use fogping.Web.{Console, Request, authed, negated}

-- The value of `strconv.ParseInt` of base 10 and 64 bits where its error is ignored: 0 for what is
-- no number, and the nearest number that fits for one that does not. Digits after the one that is
-- too much are not looked at.
digits_value : Text → ℕ → Option ℕ
digits_value [] n = some n
digits_value (c ∷ s) n =
    let m = n * 10 + (c - b'0') in
    let rest = digits_value s m in
    if leb b'0' c && leb c b'9' then (if leb (2 ^ 64) m then some (2 ^ 64 - 1) else rest) else none

unsigned_value : Text → Option ℕ
unfolding digits_value
unsigned_value [] = none
unsigned_value (c ∷ s) = digits_value (c ∷ s) 0

signed_value : Bool → Option ℕ → ℤ
unfolding negated
signed_value negative none = pos 0
signed_value true (some n) = if leb n (2 ^ 63) then negated n else negsuc (2 ^ 63 - 1)
signed_value false (some n) = if ltb n (2 ^ 63) then pos n else pos (2 ^ 63 - 1)

unfoldable pub int_value : Text → ℤ
unfolding unsigned_value signed_value
int_value [] = pos 0
int_value (c ∷ s) =
    if c == b'-'
    then signed_value true (unsigned_value s)
    else if c == b'+'
    then signed_value false (unsigned_value s)
    else signed_value false (unsigned_value (c ∷ s))

-- The minutes that are asked for, or six hours.
unfoldable pub minutes_of : ℤ → ℕ
minutes_of (negsuc n) = 360
minutes_of (pos n) = if leb n 0 || ltb (max_days * 1440) n then 360 else n

-- The range of /api/series, from its parameters `from`, `to` and `minutes`.
unfoldable pub series_range : Text → Text → Text → ℕ → ℤ × ℤ
unfolding minutes_of
series_range from to minutes now =
    if int_value from == pos 0 || int_value to == pos 0
    then (sub_ℕ now (minutes_of (int_value minutes) * 60), pos now)
    else (int_value from, int_value to)

unfoldable pub export_filename : Text → Text → Text
export_filename app day = app ++ codes "-targets-" ++ day ++ codes ".json"

pub data Ask : Type 0 where
  ask_targets ask_export : Ask
  ask_series : Text → Text → Text → Text → Ask

-- One target of the list.
pub record Item (F : Type 0) : Type 0 where
  pub id : ℕ
  pub name : Text
  pub type : Text
  pub host : Text
  pub port : ℤ
  pub addr : Text
  pub interval_sec : ℤ
  pub interval_set : ℤ
  pub pace : Text
  pub down : Bool
  pub last_1h : Stats F
  pub last_24h : Stats F

-- What the handlers read; `fault` is what the query of the active targets meets, `date` and `day`
-- what `now.Format` writes with and without dashes.
pub record Sources (F : Type 0) : Type 0 where
  pub live : Map ℕ TargetCfg
  pub memory : Memory F
  pub rows : List (RoundRow F)
  pub hourly : List (HourlyRow F)
  pub probe : ProbeCfg
  pub cursor : Cursor
  pub fault : Option Text
  pub date : Text
  pub day : Text

pub data Answer (F : Type 0) : Type 0 where
  -- 401 and 500
  unauthorized failed : Answer F
  listed : List (Item F) → Answer F
  exported : Text → TargetsFile → Answer F
  charted : Series F → Answer F

-- The last round of the hour lost everything.
unfoldable pub is_down : {F : Type 0} → List (Round F) → Bool
is_down rec = elim (last? rec) [ none ↦ false | some r ↦ r.r == 0 ]

module _ (float : Float) where
  open float use {F}

  unfoldable pub item_of : ProbeCfg → Memory F → ℕ → TargetCfg → Item F
  unfolding is_down
  item_of probe s now t =
      let hour = recent t.name (now - 3600) s in
      record {
        id = t.id;
        name = t.name;
        type = t.type;
        host = t.host;
        port = t.port;
        addr = target_addr t;
        interval_sec = (probe_params t probe).0;
        interval_set = t.interval_sec;
        pace = (if t.pace == [] then normal else t.pace);
        down = is_down hour;
        last_1h = calc_stats float hour;
        last_24h = calc_stats float (recent t.name (now - 24 * 3600) s);
      }

  unfoldable pub serve_export : Option Text → Text → Text → Text → Table → Answer F
  serve_export (some e) app date day table = failed
  serve_export none app date day table =
      exported (export_filename app day) (export_targets (active_targets table) app date)

  unfoldable pub answer : Ask → ℕ → Table → Sources F → Answer F
  unfolding item_of serve_export series_range
  answer ask_targets now table d =
      listed (map (item_of d.probe d.memory (unix now)) (running d.live))
  answer ask_export now table d = serve_export d.fault (codes "fogping") d.date d.day table
  answer (ask_series name from to minutes) now table d =
      let (first, last) = series_range from to minutes (unix now) in
      charted (read_range float d.cursor d.memory d.rows d.hourly name first last)

  -- `guard` around the handlers
  unfoldable pub serve_read : Request → Ask → Console → Sources F → Answer F × Console
  unfolding answer
  serve_read r ask c d =
      let (passed, m) = authed r c in
      (if passed then answer ask r.now c.table d else unauthorized, record c { sessions = m })

-- The status of the page: another path, the redirection to the login, or the page.
unfoldable pub serve_index : Text → Request → Console → ℕ × Console
serve_index path r c =
    if not (path == codes "/")
    then (404, c)
    else let (passed, m) = authed r c in (if passed then 200 else 302, record c { sessions = m })

-- `/api/logout` takes the cookie from the browser; the session stays until it expires.
unfoldable pub logout : Console → ℕ × Console
logout c = (200, c)
