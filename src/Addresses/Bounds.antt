-- ===== src/Addresses/Bounds.antt =====
-- How long a parsed address is.
use cos_ftp_v.Base.{
  ℕ, zero, suc, ◌+◌, ◌-◌, ◌*◌, ◌/◌, ◌%◌, ◌≤◌, ◌<◌, ◌≡◌, refl, sym, subst, ◌≢◌, inl, inr, false, not,
  ◌||◌, Option, none, some, [], ◌∷◌, ◌++◌, arith, Bytes, codes, uint_mod, ltb, ◌==◌, Bool-cases,
  if_elim, length, replicate, length-append, length-replicate, All, All-append, Outcome, ok, ◌>>=◌,
  Returns, Ends-bind, Ends-mono, Returns-ok,
}
use cos_ftp_v.Str.Edit.{is_empty}
use cos_ftp_v.Str.Locate.{str_locate_char}
use cos_ftp_v.Str.Split.{str_split_text}
use cos_ftp_v.Str.Split.Parts.{
  before, after, AroundFirst, str_split_text-AroundFirst, str_split_char-before-after,
}
use cos_ftp_v.Addresses.{
  Parsed, no_address, out_of_fuel, parsed, hex_loop, ipv6_parse_hex, Quad, quad_loop, quad_bytes,
  quad_end, ipv4_parse_dotquad, is_found, ipv6_parse_field, field_then, main_loop, ipv6_parse_main,
  join, vsf_sysutil_parse_ipv6,
}

abbrev Byte : ℕ → Type 0
Byte n = n < 256

-- Some bytes were put behind those that were there.
abbrev Longer : Bytes → Option Bytes → Type 0
Longer out none = Unit
Longer out (some o) = All Byte o × (length out < length o)

hex-Longer : (out s : Bytes) → All Byte out → Longer out (ipv6_parse_hex out s)
unfolding ipv6_parse_hex
hex-Longer out s h = by_val (hex_loop 0 s)
  where
    by_val :
        (v : Option ℕ)
        → Longer out
            (elim v [ none ↦ none | some val ↦ some (out ++ val / 256 % 256 ∷ val % 256 ∷ []) ])
    by_val none = tt
    by_val (some val) = (
      All-append Byte out _ h (omega arith, (omega arith, tt)),
      omega (arith, length-append out (val / 256 % 256 ∷ val % 256 ∷ [])),
    )

quad_end-Longer : (out : Bytes) (q : Option Quad) → All Byte out → Longer out (quad_end out q)
quad_end-Longer out none h = tt
quad_end-Longer out (some q) h =
    let n = (q.final_val * 256 + q.val) % uint_mod in
    if_elim (Longer out) (not (q.dots == 3) || not q.seen_char) none (some (out ++ quad_bytes n))
      (λ bad. tt)
      (λ good. (
        All-append Byte out _ h (omega arith, (omega arith, (omega arith, (omega arith, tt)))),
        omega (arith, length-append out (quad_bytes n)),
      ))

field-Longer : (out s : Bytes) → All Byte out → Longer out (ipv6_parse_field out s)
unfolding ipv6_parse_field ipv4_parse_dotquad
field-Longer out s h =
    if_elim (Longer out) (is_found (str_locate_char s b'.')) _ _
      (λ quad.
        quad_end-Longer out
          (quad_loop (record { val = 0; final_val = 0; seen_char = false; dots = 0 }) s) h)
      (λ hex. hex-Longer out s h)

-- A parse of a part: of bytes, and of some if the part is not empty.
abbrev Part : Bytes → Bytes → Parsed → Type 0
Part out s no_address = Unit
Part out s out_of_fuel = ⊥
Part out s (parsed o) =
    All Byte o × (length out ≤ length o) × (is_empty s ≡ false → length out < length o)

after_le : (c : ℕ) (s : Bytes) → length (after c s) ≤ length s
after_le c [] = omega arith
after_le c (x ∷ s) = elim (Bool-cases (x == c)) [
  | inl same ↦ rw same (omega arith)
  | inr other ↦ rw other (omega (arith, after_le c s))
]

after_shorter : (c : ℕ) (s : Bytes) → is_empty s ≡ false → length (after c s) < length s
unfolding is_empty
after_shorter c [] ne = absurd cc
after_shorter c (x ∷ s) ne = elim (Bool-cases (x == c)) [
  | inl same ↦ rw same (omega arith)
  | inr other ↦ rw other (omega (arith, after_le c s))
]

-- A part behind another: what holds of it from more bytes holds from fewer.
field_then-Part :
    (out s rest : Bytes) (next : Bytes → Outcome Parsed) (o : Option Bytes)
    → Longer out o
    → ((o1 : Bytes) → All Byte o1 → Returns (Part o1 rest) (next o1))
    → Returns (Part out s) (field_then next o)
field_then-Part out s rest next none l k = tt
field_then-Part out s rest next (some o) l k =
    Ends-mono ⊥ ⊥ (Part o rest) (Part out s) (next o) (λ b. b) further (k o l.0)
  where
    further : (r : Parsed) → Part o rest r → Part out s r
    further no_address h = tt
    further out_of_fuel h = h
    further (parsed o2) h = (h.0, omega (arith, l.1, h.1), λ ne. omega (arith, l.1, h.1))

colon : ◌≢◌ {A = ℕ} b':' 0
colon e = absurd (omega (arith, e))

main_loop-Part :
    (fuel : ℕ) (out s : Bytes)
    → length s < fuel
    → All Byte out
    → Returns (Part out s) (main_loop fuel out s)
unfolding main_loop
main_loop-Part zero out s h bytes = absurd (omega arith)
main_loop-Part (suc fuel) out s h bytes =
    if_elim (Returns (Part out s)) (is_empty s) (ok (parsed out)) _
      (λ empty. (bytes, omega arith, λ ne. absurd cc))
      (λ ne. rw (str_split_char-before-after s b':' colon) (
        if_elim (Returns (Part out s)) (is_empty (before b':' s)) (ok no_address) _ (λ bad. tt)
          (λ good.
            field_then-Part out s (after b':' s) _ (ipv6_parse_field out (before b':' s))
              (field-Longer out (before b':' s) bytes)
              (λ o1 b1.
                main_loop-Part fuel o1 (after b':' s) (omega (arith, after_shorter b':' s ne))
                  b1))))

ipv6_parse_main-Part : (s : Bytes) → Returns (Part [] s) (ipv6_parse_main s)
unfolding ipv6_parse_main
ipv6_parse_main-Part s = main_loop-Part (length s + 1) [] s (omega arith) tt

zeros-All : (n : ℕ) → All Byte (replicate n 0)
zeros-All zero = tt
zeros-All (suc n) = (omega arith, zeros-All n)

-- No more than 16 bytes, and as many if there was something behind "::".
abbrev pub IsAddress : Bytes → Parsed → Type 0
IsAddress rhs no_address = Unit
IsAddress rhs out_of_fuel = ⊥
IsAddress rhs (parsed o) =
    All (λ n. n < 256) o × (length o ≤ 16) × (is_empty rhs ≡ false → length o ≡ 16)

join-IsAddress :
    (l r : Bytes) (lhs rhs : Parsed) → Part [] l lhs → Part [] r rhs → IsAddress r (join lhs rhs)
join-IsAddress l r out_of_fuel rhs h k = h
join-IsAddress l r no_address rhs h k = tt
join-IsAddress l r (parsed a) out_of_fuel h k = k
join-IsAddress l r (parsed a) no_address h k = tt
join-IsAddress l r (parsed a) (parsed b) h k =
    if_elim (IsAddress r) (ltb 16 (length a + length b)) no_address _ (λ long. tt)
      (λ fits.
        if_elim (IsAddress r) (ltb 0 (length b)) (parsed ((a ++ replicate gap 0) ++ b)) (parsed a)
          (λ some_right. (
            All-append Byte (a ++ replicate gap 0) b (All-append Byte a _ h.0 (zeros-All gap)) k.0,
            whole fits,
            λ ne. sized fits,
          ))
          (λ none_right. (h.0, short fits, λ ne. absurd (none fits none_right (k.2 ne)))))
  where
    gap : ℕ
    gap = 16 - (length a + length b)

    sum_fits : ltb 16 (length a + length b) ≡ false → length a + length b ≤ 16
    sum_fits fits = ground arith

    short : ltb 16 (length a + length b) ≡ false → length a ≤ 16
    short fits = omega (arith, sum_fits fits)

    none : ltb 16 (length a + length b) ≡ false → ltb 0 (length b) ≡ false → 0 < length b → ⊥
    none fits e pos = ground arith

    sized : ltb 16 (length a + length b) ≡ false → length ((a ++ replicate gap 0) ++ b) ≡ 16
    sized fits = omega (
      arith,
      sum_fits fits,
      length-append (a ++ replicate gap 0) b,
      length-append a (replicate gap 0),
      length-replicate {A = ℕ} gap 0,
    )

    whole : ltb 16 (length a + length b) ≡ false → length ((a ++ replicate gap 0) ++ b) ≤ 16
    whole fits = omega (arith, sized fits)

-- A parse of an IPv6 address comes to its end. An address that it gives is of bytes, 16 at most, and
-- just 16 where something stands behind the first "::".
pub parse_ipv6-IsAddress :
    (s : Bytes)
    → Returns
        (λ r. (p : Bytes × Bytes) × (str_split_text s (codes "::") ≡ ok p) × IsAddress p.1 r)
        (vsf_sysutil_parse_ipv6 s)
unfolding vsf_sysutil_parse_ipv6
parse_ipv6-IsAddress s =
    let (p, e, h) =
      Returns-ok (AroundFirst s (codes "::")) (str_split_text s (codes "::"))
        (str_split_text-AroundFirst s (codes "::") (λ q. absurd cc)) in
    subst
      (λ o.
        Returns (λ r. (p : Bytes × Bytes) × (o ≡ ok p) × IsAddress p.1 r)
          (o >>= (λ p.
            ipv6_parse_main p.0 >>= (λ lhs. ipv6_parse_main p.1 >>= (λ rhs. ok (join lhs rhs))))))
      (sym e) (both_sides p)
  where
    both_sides :
        (p : Bytes × Bytes)
        → Returns
            (λ r. (q : Bytes × Bytes) × (ok p ≡ ok q) × IsAddress q.1 r)
            (ipv6_parse_main p.0 >>= (λ lhs. ipv6_parse_main p.1 >>= (λ rhs. ok (join lhs rhs))))
    both_sides p =
        Ends-bind ⊥ (Part [] p.0) _ (ipv6_parse_main p.0) _ (ipv6_parse_main-Part p.0) (λ lhs h.
          Ends-bind ⊥ (Part [] p.1) _ (ipv6_parse_main p.1) _ (ipv6_parse_main-Part p.1)
            (λ rhs k. (p, refl, join-IsAddress p.0 p.1 lhs rhs h k)))
