-- ===== src/Json.antt =====
-- JSON values, as `encoding/json` hands them to a struct, and how it finds a struct's field.
use fogping.Prelude.{
  ℕ, ◌-◌, Bool, ◌&&◌, List, [], ◌∷◌, Text, if◌then◌else◌, ◌==◌, text_eq, leb, nat_beq, map,
}
use fogping.Prelude.Int.{ℤ}

mutual
  -- `int` is a number that `strconv.ParseInt` reads into an int, `num` any other number.
  pub data Json : Type 0 where
    null : Json
    bool : Bool → Json
    int : ℤ → Json
    num : Text → Json
    str : Text → Json
    arr : Items → Json
    obj : Members → Json

  pub data Items : Type 0 where
    nil : Items
    cons : Json → Items → Items

  pub data Members : Type 0 where
    end : Members
    member : Text → Json → Members → Members

unfoldable pub to_items : List Json → Items
to_items [] = nil
to_items (v ∷ vs) = cons v (to_items vs)

unfoldable pub from_items : Items → List Json
from_items nil = []
from_items (cons v vs) = v ∷ from_items vs

-- The least rune of the simple folding orbit, as far as that is ASCII: the capitals, and S and K for
-- the long s and the kelvin sign.
unfoldable pub fold_rune : ℕ → ℕ
fold_rune c =
    if leb b'a' c && leb c b'z'
    then c - 32
    else if nat_beq c 0x17f
    then b'S'
    else if nat_beq c 0x212a
    then b'K'
    else c

-- A key finds a field by its exact name, or else by its folded name; the names of one struct stay
-- distinct when folded, so the second search decides.
unfoldable pub is_field : Text → Text → Bool
unfolding fold_rune
is_field field key = map fold_rune key == map fold_rune field
