-- ===== src/Commands/Round/Allowed.antt =====
-- Which commands the settings allow.
use cos_ftp_v.Base.{
  ℕ, zero, suc, ◌+◌, ◌≤◌, ◌<◌, ◌≡◌, refl, ap, ◌∙◌, ◌⊎◌, inl, inr, Bool, true, false, not, ◌&&◌,
  Option, none, some, List, [], ◌∷◌, arith, Bytes, ◌==◌, if◌then◌else◌, Bool-cases, length, Outcome,
  ok,
}
use cos_ftp_v.Str.Compare.{str_equal}
use cos_ftp_v.Str.Edit.{is_empty}
use cos_ftp_v.Str.Split.Parts.{before, after, str_split_char-before-after}
use cos_ftp_v.Commands.{CommandTunables}
use cos_ftp_v.Commands.Round.{listed_loop, is_listed, cmd_ok, allowed_by, denied_by}

-- The items of a list with commas between them: the first, and the others.
abbrev pub next_item : ℕ → Bytes × List Bytes → Bytes × List Bytes
next_item c (item, others) = if c == b',' then ([], item ∷ others) else (c ∷ item, others)

abbrev pub commas : Bytes → Bytes × List Bytes
commas [] = ([], [])
commas (c ∷ s) = next_item c (commas s)

abbrev pub items_of : Bytes → List Bytes
items_of s = (commas s).0 ∷ (commas s).1

-- The command is one of the items in front of the first empty one.
abbrev pub found : Bytes → List Bytes → Bool
found cmd [] = false
found cmd (item ∷ items) =
    if is_empty item then false else if str_equal item cmd then true else found cmd items

-- The part of a list behind its first item.
abbrev Behind : Bytes → Type 0
Behind s =
    ((commas s).0 ≡ before b',' s)
    × ((((commas s).1 ≡ []) × (after b',' s ≡ [])) ⊎ ((commas s).1 ≡ items_of (after b',' s)))

behind : (s : Bytes) → Behind s
behind [] = (refl, inl (refl, refl))
behind (c ∷ s) = elim (Bool-cases (c == b',')) [
  | inl comma ↦ rw comma (refl, inr refl)
  | inr other ↦ rw other (let (i, r) = behind s in (ap (◌∷◌ c) i, r))
]

-- The items behind the first, of a list that has none, are one that is empty.
found-behind :
    (s cmd : Bytes)
    → ((((commas s).1 ≡ []) × (after b',' s ≡ [])) ⊎ ((commas s).1 ≡ items_of (after b',' s)))
    → found cmd (items_of (after b',' s)) ≡ found cmd (commas s).1
unfolding is_empty
found-behind s cmd (inl k) = rw (k.0, k.1) refl
found-behind s cmd (inr k) = rw k refl

after_le : (s : Bytes) → length (after b',' s) ≤ length s
after_le [] = omega arith
after_le (c ∷ s) = ground (arith, after_le s)

after_shorter : (s : Bytes) → is_empty (before b',' s) ≡ false → length (after b',' s) < length s
unfolding is_empty
after_shorter [] h = absurd cc
after_shorter (c ∷ s) h = ground (arith, after_le s)

-- One round of the loop.
round :
    (stops same : Bool) (next : Outcome Bool) (more : Bool)
    → (stops ≡ false → next ≡ ok more)
    → elim stops [ true ↦ ok false | false ↦ elim same [ true ↦ ok true | false ↦ next ] ]
      ≡ ok (if stops then false else if same then true else more)
round true same next more h = refl
round false true next more h = refl
round false false next more h = h refl

listed-found :
    (fuel : ℕ) (s cmd : Bytes)
    → length s < fuel
    → listed_loop fuel s cmd ≡ ok (found cmd (items_of s))
unfolding listed_loop
listed-found zero s cmd h = absurd (omega arith)
listed-found (suc fuel) s cmd h =
    let (first, rest) = behind s in
    rw (str_split_char-before-after s b',' (λ e. absurd cc), first)
      (round (is_empty (before b',' s)) (str_equal (before b',' s) cmd)
        (listed_loop fuel (after b',' s) cmd) (found cmd (commas s).1)
        (λ some_left.
          listed-found fuel (after b',' s) cmd (omega (arith, h, after_shorter s some_left))
          ∙ ap ok (found-behind s cmd rest)))

-- The loop over a list of commands comes to an end, and it finds just the commands that stand in the
-- list in front of its first empty item.
pub is_listed-found : (s cmd : Bytes) → is_listed s cmd ≡ ok (found cmd (items_of s))
unfolding is_listed
is_listed-found s cmd = listed-found (length s + 1) s cmd (omega arith)

-- The settings allow a command.
abbrev pub is_allowed : Option Bytes → Bytes → Bool
is_allowed none cmd = true
is_allowed (some s) cmd = found cmd (items_of s)

abbrev pub is_denied : Option Bytes → Bytes → Bool
is_denied none cmd = false
is_denied (some s) cmd = found cmd (items_of s)

allowed_by-eq : (o : Option Bytes) (cmd : Bytes) → allowed_by o cmd ≡ ok (is_allowed o cmd)
unfolding allowed_by
allowed_by-eq none cmd = refl
allowed_by-eq (some s) cmd = is_listed-found s cmd

denied_by-eq : (o : Option Bytes) (cmd : Bytes) → denied_by o cmd ≡ ok (is_denied o cmd)
unfolding denied_by
denied_by-eq none cmd = refl
denied_by-eq (some s) cmd = is_listed-found s cmd

-- The test of a command comes to an end. It passes where the command is in the list of allowed
-- commands, if there is such a list, and is not in the list of denied ones; of both lists, only the
-- items in front of the first empty one count.
pub cmd_ok-is_allowed :
    (t : CommandTunables) (cmd : Bytes)
    → cmd_ok t cmd
      ≡ ok (is_allowed t.tunable_cmds_allowed cmd && not (is_denied t.tunable_cmds_denied cmd))
unfolding cmd_ok
cmd_ok-is_allowed t cmd =
    rw (allowed_by-eq t.tunable_cmds_allowed cmd) (rw (denied_by-eq t.tunable_cmds_denied cmd) refl)
