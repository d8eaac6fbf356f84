-- ===== src/Web/Tests.antt =====
-- Runs of web.go on a console with one user.
use fogping.Prelude.{
  ℕ, ◌-◌, ◌*◌, ◌^◌, ◌≢◌, arith, ◌≡◌, ◌⊎◌, refl, true, Option, none, some, [], ◌∷◌, Text, codes,
  text_eq, leb,
}
use fogping.Prelude.Int.{pos, negsuc}
use fogping.Config.Tests.{raw_shop}
use fogping.Targets.Lookup.{no_fault}
use fogping.Targets.Reach.{new_table, new_table-IsValid}
use fogping.Targets.Validity.{IsValid}
use fogping.Web.{Console, Request, Call, post_target, handle, serve_write, login, parse_int}
use fogping.Web.Gate.{Admitted, Local, serve_write-Admitted}
use fogping.Web.Read.{
  int_value, series_range, ask_export, unauthorized, Sources, answer, serve_read,
}
use fogping.Web.Window.{series_range_lem, Minutes, serve_read-Admitted}
use fogping.Config.{default_config}
use fogping.Store.Query.{is_raw, whole}
use fogping.Store.Tests.{whole_numbers}
use fogping.Web.Reach.{Visited, start, then_one, writes, logs_in, Visited-IsValid}

abbrev pub console : Console
console = record {
  users = (codes "ann", codes "secret") ∷ [];
  editable = true;
  sessions = [];
  table = new_table;
}

abbrev pub no_urls : Text → Option Text
no_urls s = none

abbrev pub request : Request
request = record { cookie = some (codes "t1"); origin = []; host = codes "box"; now = 5 }

abbrev pub add_shop : Call
add_shop =
    post_target (no_fault 0) none
      (record { media = codes "application/json"; decoded = some raw_shop })

abbrev signed_in : Console
signed_in = (login (codes "POST") (codes "ann") (codes "secret") (codes "t1") 1 console).1

serve_write-Admitted_example :
    ((serve_write no_urls request add_shop signed_in).1.table ≡ signed_in.table)
    ⊎ (signed_in.editable ≡ true)
      × Admitted request signed_in
      × Local no_urls request
      × ((serve_write no_urls request add_shop signed_in).0 ≡ (handle add_shop signed_in.table).0)
      × ((serve_write no_urls request add_shop signed_in).1.table
          ≡ (handle add_shop signed_in.table).1)
serve_write-Admitted_example = serve_write-Admitted no_urls request add_shop signed_in

visit : Visited no_urls console (serve_write no_urls request add_shop signed_in).1
visit =
    then_one (then_one start (logs_in (codes "POST") (codes "ann") (codes "secret") (codes "t1") 1))
      (writes request add_shop)

Visited-IsValid_example : IsValid (serve_write no_urls request add_shop signed_in).1.table
Visited-IsValid_example = Visited-IsValid no_urls new_table-IsValid visit

ids :
    (parse_int (codes "+42") ≡ some (pos 42))
    × (parse_int (codes "-1") ≡ some (negsuc 0))
    × (parse_int (codes "4x") ≡ none)
unfolding parse_int
ids = (refl, refl, refl)

series_range_lem_example :
    (int_value [] ≢ pos 0)
      × (int_value (codes "7x") ≢ pos 0)
      × (series_range [] (codes "7x") (codes "1441") 1700000000
          ≡ (int_value [], int_value (codes "7x")))
    ⊎ (m : ℕ) × Minutes (int_value (codes "1441")) m
      × (series_range [] (codes "7x") (codes "1441") 1700000000
          ≡ (pos (1700000000 - m * 60), pos 1700000000))
      × (is_raw (pos (1700000000 - m * 60)) (pos 1700000000) ≡ leb (m * 60) 86400)
series_range_lem_example = series_range_lem [] (codes "7x") (codes "1441") 1700000000 (omega arith)

-- What `strconv.ParseInt` leaves beside an error.
values :
    (int_value (codes "-12") ≡ negsuc 11)
    × (int_value (codes "12x") ≡ pos 0)
    × (int_value (codes "99999999999999999999") ≡ pos (2 ^ 63 - 1))
unfolding int_value
values = (refl, refl, refl)

abbrev sources : Sources ℕ
sources = record {
  live = [];
  memory = record { ids = []; rings = []; names = []; total = 0; pending = [] };
  rows = [];
  hourly = [];
  probe = default_config.probe;
  cursor = whole;
  fault = none;
  date = codes "2026-01-31";
  day = codes "20260131";
}

serve_read-Admitted_example :
    (((serve_read whole_numbers request ask_export signed_in sources).0 ≡ unauthorized)
      ⊎ Admitted request signed_in
        × ((serve_read whole_numbers request ask_export signed_in sources).0
            ≡ answer whole_numbers ask_export request.now signed_in.table sources))
    × ((serve_read whole_numbers request ask_export signed_in sources).1.table ≡ signed_in.table)
    × ((serve_read whole_numbers request ask_export signed_in sources).1.users ≡ signed_in.users)
    × ((serve_read whole_numbers request ask_export signed_in sources).1.editable
        ≡ signed_in.editable)
serve_read-Admitted_example = serve_read-Admitted whole_numbers request ask_export signed_in sources
