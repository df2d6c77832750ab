-- ===== src/Addresses/Items.antt =====
-- The parsers of addresses come to an end.
use cos_ftp_v.Base.{
  ℕ, zero, suc, ◌≡◌, refl, ap, ◌≢◌, not, ◌&&◌, ◌||◌, Option, none, some, Bytes, ltb, ◌==◌, if_elim,
  length, Returns, Ends-bind, Ends-mono,
}
use cos_ftp_v.Str.Edit.{is_empty}
use cos_ftp_v.Str.Split.Parts.{before, after, str_split_char-before-after}
use cos_ftp_v.Addresses.{
  cons_item, uchar_loop, vsf_sysutil_parse_uchar_string_sep, Parsed, no_address, out_of_fuel,
  parsed, vsf_sysutil_parse_ipv6,
}
use cos_ftp_v.Addresses.Bounds.{IsAddress, parse_ipv6-IsAddress}

-- A list of so many items, or none.
abbrev pub HasItems : ℕ → Option Bytes → Type 0
HasItems n none = Unit
HasItems n (some vals) = length vals ≡ n

module _ (atoi : Bytes → ℕ) where
  cons-HasItems :
      (n item : ℕ) (o : Option Bytes) → HasItems n o → Returns (HasItems (suc n)) (cons_item item o)
  cons-HasItems n item none h = tt
  cons-HasItems n item (some vals) h = ap suc h

  uchar_loop-HasItems :
      (items : ℕ) (s : Bytes) (sep : ℕ)
      → sep ≢ 0
      → Returns (HasItems items) (uchar_loop atoi items s sep)
  unfolding uchar_loop
  uchar_loop-HasItems zero s sep ne = refl
  uchar_loop-HasItems (suc left) s sep ne = rw (str_split_char-before-after s sep ne) (
      if_elim (Returns (HasItems (suc left)))
        ((ltb 0 left && is_empty (after sep s)) || (left == 0 && not (is_empty (after sep s)))) _ _
        (λ e. tt)
        (λ e.
          if_elim (Returns (HasItems (suc left))) (ltb 255 (atoi (before sep s))) _ _ (λ e. tt)
            (λ e.
              Ends-bind ⊥ (HasItems left) (HasItems (suc left))
                (uchar_loop atoi left (after sep s) sep) _
                (uchar_loop-HasItems left (after sep s) sep ne)
                (cons-HasItems left (atoi (before sep s))))))

  -- `vsf_sysutil_parse_uchar_string_sep` comes to an end, and a list that it gives has just the items
  -- it was asked for.
  pub parse_uchar_string_sep-HasItems :
      (s : Bytes) (sep items : ℕ)
      → sep ≢ 0
      → Returns (HasItems items) (vsf_sysutil_parse_uchar_string_sep atoi s sep items)
  unfolding vsf_sysutil_parse_uchar_string_sep
  parse_uchar_string_sep-HasItems s sep items ne = uchar_loop-HasItems items s sep ne

-- An IPv6 address is parsed with fuel to spare.
abbrev pub HasFuel : Parsed → Type 0
HasFuel no_address = Unit
HasFuel out_of_fuel = ⊥
HasFuel (parsed raw) = Unit

pub parse_ipv6-HasFuel : (s : Bytes) → Returns HasFuel (vsf_sysutil_parse_ipv6 s)
parse_ipv6-HasFuel s =
    Ends-mono ⊥ ⊥ _ HasFuel (vsf_sysutil_parse_ipv6 s) (λ impossible. impossible)
      (λ r k. fueled k.0.1 r k.2) (parse_ipv6-IsAddress s)
  where
    fueled : (right : Bytes) (r : Parsed) → IsAddress right r → HasFuel r
    fueled right no_address h = tt
    fueled right out_of_fuel h = h
    fueled right (parsed raw) h = tt
