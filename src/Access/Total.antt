-- ===== src/Access/Total.antt =====
-- The end of the check of denied names.
use cos_ftp_v.Base.{
  inl, inr, true, false, Option, none, some, Bytes, Option-cases, Returns, Ends-bind,
}
use cos_ftp_v.Str.Locate.{str_locate_str}
use cos_ftp_v.Listing.{Verdict, vsf_filename_passes_filter}
use cos_ftp_v.Listing.Pieces.{HasNoZero}
use cos_ftp_v.Listing.Total.{passes_filter-Returns}
use cos_ftp_v.Access.{unless_named, access_check, vsf_access_check_file}

-- A setting that is null or a C string.
abbrev pub IsText : Option Bytes → Type 0
IsText none = Unit
IsText (some s) = HasNoZero s

unless_named-Returns :
    (name filter : Bytes) (r : Verdict) → Returns (λ b. Unit) (unless_named name filter r)
unfolding unless_named
unless_named-Returns name filter (true, iters) = tt
unless_named-Returns name filter (false, iters) = elim (Option-cases (str_locate_str name filter)) [
  | inl e ↦ rw e tt
  | inr (i, e) ↦ rw e tt
]

pub check_file-Returns :
    (deny : Option Bytes) (name : Bytes)
    → IsText deny
    → Returns (λ b. Unit) (vsf_access_check_file deny name)
unfolding vsf_access_check_file access_check
check_file-Returns none name h = tt
check_file-Returns (some filter) name h =
    Ends-bind ⊥ (λ r. Unit) (λ b. Unit) (vsf_filename_passes_filter name filter 0)
      (unless_named name filter) (passes_filter-Returns name filter h)
      (λ r u. unless_named-Returns name filter r)
