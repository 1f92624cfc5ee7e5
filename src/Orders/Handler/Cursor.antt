-- ===== src/Orders/Handler/Cursor.antt =====
-- internal/orders/handler.go: the opaque cursor of a page.
use oms_go.Prelude.{
  ◌≡◌, ◌≢◌, refl, Option, none, some, String, List, [], ◌∷◌, str_eq, eq_iff, Bool-cases, inl, inr,
  false, if◌then◌else◌,
}
use oms_go.Prelude.Text.Blank.{IsBlank, trim_space-empty_iff}
use oms_go.Prelude.Exec.{Result, ok, err, and_then, some_or_fail}
use oms_go.Prelude.Text.{◌<>◌, trim_space}
use oms_go.Prelude.Text.Words.{split_on, Lacks, split_on-first, split_on-Lacks, IsSolid}
use oms_go.Db.Models.{Uuid, Timestamp}
use oms_go.Orders.Handler.{Texts}

abbrev pub bad_cursor : String
bad_cursor = "cursor must be a valid opaque cursor"

-- The key after which a page starts, if one is given.
abbrev pub Key : Type 0
Key = Option Timestamp × Option Uuid

module _ (texts : Texts) where
  open texts use {format_time, parse_time, format_uuid, parse_uuid, encode, decode}

  two_parts : List String → Result String Key
  two_parts (time ∷ id ∷ []) = and_then (some_or_fail bad_cursor (parse_time time)) (λ created_at.
      and_then (some_or_fail bad_cursor (parse_uuid id))
        (λ order_id. ok (some created_at, some order_id)))
  two_parts _ = err bad_cursor

  unfoldable pub parse_cursor : String → Result String Key
  unfolding two_parts
  parse_cursor raw =
      if str_eq (trim_space raw) ""
      then ok (none, none)
      else and_then (some_or_fail bad_cursor (decode raw))
          (λ decoded. two_parts (split_on b'|' decoded))

  abbrev pub cursor_text : Timestamp → Uuid → String
  cursor_text created_at order_id = format_time created_at <> ("|" <> format_uuid order_id)

  unfoldable pub encode_cursor : Timestamp → Uuid → String
  encode_cursor created_at order_id = encode (cursor_text created_at order_id)

-- What the packages promise of one cursor: a formatted time and a formatted uuid have no bar and are
-- read back, and base64 is decoded again, has no white space, and is not empty.
pub record Reads (texts : Texts) (created_at : Timestamp) (order_id : Uuid) : Type 0 where
  pub time_back : texts.parse_time (texts.format_time created_at) ≡ some created_at
  pub id_back : texts.parse_uuid (texts.format_uuid order_id) ≡ some order_id
  pub no_bar : Lacks b'|' (texts.format_time created_at) × Lacks b'|' (texts.format_uuid order_id)
  pub decoded :
      texts.decode (texts.encode (cursor_text texts created_at order_id))
      ≡ some (cursor_text texts created_at order_id)
  pub solid : IsSolid (texts.encode (cursor_text texts created_at order_id))
  pub full : texts.encode (cursor_text texts created_at order_id) ≢ ""

solid-full : (s : String) → IsSolid s → s ≢ "" → str_eq (trim_space s) "" ≡ false
solid-full s solid full = elim (Bool-cases (str_eq (trim_space s) "")) [
  | inl blank ↦
      absurd
        (not_both s solid full ((trim_space-empty_iff s).0 ((eq_iff (trim_space s) "").0 blank)))
  | inr e ↦ e
]
  where
    not_both : (s : String) → IsSolid s → s ≢ "" → ¬ IsBlank s
    not_both String.[] _ full _ = full refl
    not_both (String.◌∷◌ c s) solid _ blank = absurd (cc (solid.0, blank.0))

-- The cursor that is given out with a page is read back, when the client sends it with the next request,
-- as the creation time and the id that it was made of.
pub parse_cursor-encode_cursor :
    (texts : Texts) (created_at : Timestamp) (order_id : Uuid)
    → Reads texts created_at order_id
    → parse_cursor texts (encode_cursor texts created_at order_id)
      ≡ ok (some created_at, some order_id)
unfolding parse_cursor encode_cursor two_parts
parse_cursor-encode_cursor texts created_at order_id reads =
    rw
      (
        solid-full (texts.encode (cursor_text texts created_at order_id)) reads.solid reads.full,
        reads.decoded,
      )
      (rw
        (
          split_on-first b'|' (texts.format_time created_at) _ (texts.format_uuid order_id)
              reads.no_bar.0 refl,
          split_on-Lacks b'|' (texts.format_uuid order_id) reads.no_bar.1,
        )
        (rw (reads.time_back, reads.id_back) refl))
