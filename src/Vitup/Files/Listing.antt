-- ===== src/Vitup/Files/Listing.antt =====
-- What vitup/src/manager/file_lister.rs lists, told by the paths below the root.
use mathlib.Core.Path.{subst}
use vit_testing.Prelude.{
  Bool, true, false, not, ◌≡◌, refl, sym, ap, ◌∙◌, inl, inr, some, List, [], ◌∷◌, ◌++◌, map, filter,
  All, ok, ◌&&◌, ◌||◌, Bool-cases, if◌then◌else◌,
}
use vit_testing.Prelude.Text.{Text, codes, contains, starts_with, strip_prefix, text_eq, replace}
use vit_testing.Prelude.Text.Paths.{file_name}
use vit_testing.Prelude.Text.Replace.{replace-none, replace-front, text_eq-eq}
use vit_testing.Mock.Run.{returns}
use vit_testing.Folders.{Walker, files_of}
use vit_testing.Vitup.Files.{
  Heading, qr_codes, private_keys, private_data, blockchain, network, same, FolderDump, heading_of,
  relative, is_storage, dump_json,
}
use vit_testing.Vitup.Files.Headings.{under, dump_json-under}

-- The root as it stands in front of the paths of a walk.
abbrev pub front : Text → Text
front r = codes "./" ++ (r ++ codes "/")

-- A path below a root, with no backslash in either and the root's front once.
abbrev pub IsPlain : Text → Text → Type 0
IsPlain r p = (contains (codes "\\") (front r ++ p) ≡ false) × (contains (front r) p ≡ false)

abbrev has_code : Text → Bool
has_code p = contains (codes "qr-codes") p

abbrev is_wallet : Text → Bool
is_wallet p = starts_with (codes "wallet") p

abbrev is_committee : Text → Bool
is_committee p = text_eq p (codes "committee")

abbrev is_chain : Text → Bool
is_chain p = text_eq (codes "block0.bin") p || text_eq (codes "genesis.yaml") p

-- The codes are the paths that name their folder, the private keys the wallets and the file of the
-- committee, the blockchain its two files, the private data what else names the committees, and the
-- network all others.
unfoldable pub is_listed : Heading → Text → Bool
is_listed qr_codes p = has_code p
is_listed private_keys p = not (has_code p) && (is_wallet p || is_committee p)
is_listed blockchain p = is_chain p
is_listed private_data p =
    not (has_code p) && (not (is_wallet p) && contains (codes "committees") p)
is_listed network p =
    not (has_code p)
    && (not (is_wallet p)
        && (not (is_committee p) && (not (is_chain p) && not (contains (codes "committees") p))))

-- The headings of a path that is none of the three files, by the tests on it.
abbrev chosen : Bool → Bool → Bool → Heading
chosen q w d =
    if q
    then qr_codes
    else (if w || false then private_keys else (if d then private_data else network))

abbrev choice : Heading → Bool → Bool → Bool → Bool
choice qr_codes q w d = q
choice private_keys q w d = not q && (w || false)
choice blockchain q w d = false
choice private_data q w d = not q && (not w && d)
choice network q w d = not q && (not w && (true && (true && not d)))

chosen-choice : (h : Heading) (q w d : Bool) → same (chosen q w d) h ≡ choice h q w d
unfolding same
chosen-choice qr_codes true w d = refl
chosen-choice qr_codes false true d = refl
chosen-choice qr_codes false false true = refl
chosen-choice qr_codes false false false = refl
chosen-choice private_keys true w d = refl
chosen-choice private_keys false true d = refl
chosen-choice private_keys false false true = refl
chosen-choice private_keys false false false = refl
chosen-choice private_data true w d = refl
chosen-choice private_data false true d = refl
chosen-choice private_data false false true = refl
chosen-choice private_data false false false = refl
chosen-choice blockchain true w d = refl
chosen-choice blockchain false true d = refl
chosen-choice blockchain false false true = refl
chosen-choice blockchain false false false = refl
chosen-choice network true w d = refl
chosen-choice network false true d = refl
chosen-choice network false false true = refl
chosen-choice network false false false = refl

committee-listed :
    (h : Heading) → same (heading_of (codes "committee")) h ≡ is_listed h (codes "committee")
unfolding heading_of is_listed same contains starts_with strip_prefix text_eq
committee-listed qr_codes = refl
committee-listed private_keys = refl
committee-listed private_data = refl
committee-listed blockchain = refl
committee-listed network = refl

block0-listed :
    (h : Heading) → same (heading_of (codes "block0.bin")) h ≡ is_listed h (codes "block0.bin")
unfolding heading_of is_listed same contains starts_with strip_prefix text_eq
block0-listed qr_codes = refl
block0-listed private_keys = refl
block0-listed private_data = refl
block0-listed blockchain = refl
block0-listed network = refl

genesis-listed :
    (h : Heading) → same (heading_of (codes "genesis.yaml")) h ≡ is_listed h (codes "genesis.yaml")
unfolding heading_of is_listed same contains starts_with strip_prefix text_eq
genesis-listed qr_codes = refl
genesis-listed private_keys = refl
genesis-listed private_data = refl
genesis-listed blockchain = refl
genesis-listed network = refl

other-listed :
    (h : Heading) (p : Text)
    → is_committee p ≡ false
    → text_eq (codes "block0.bin") p ≡ false
    → text_eq (codes "genesis.yaml") p ≡ false
    → same (heading_of p) h ≡ is_listed h p
unfolding heading_of is_listed
other-listed qr_codes p a b c =
    rw (a, b, c)
      (chosen-choice qr_codes (has_code p) (is_wallet p) (contains (codes "committees") p))
other-listed private_keys p a b c =
    rw (a, b, c)
      (chosen-choice private_keys (has_code p) (is_wallet p) (contains (codes "committees") p))
other-listed private_data p a b c =
    rw (a, b, c)
      (chosen-choice private_data (has_code p) (is_wallet p) (contains (codes "committees") p))
other-listed blockchain p a b c =
    rw (a, b, c)
      (chosen-choice blockchain (has_code p) (is_wallet p) (contains (codes "committees") p))
other-listed network p a b c =
    rw (a, b, c)
      (chosen-choice network (has_code p) (is_wallet p) (contains (codes "committees") p))

heading_of-listed : (h : Heading) (p : Text) → same (heading_of p) h ≡ is_listed h p
heading_of-listed h p = elim (Bool-cases (is_committee p)) [
  | inl a ↦
      subst (λ t. same (heading_of t) h ≡ is_listed h t) (sym (text_eq-eq p _ a))
        (committee-listed h)
  | inr a ↦ elim (Bool-cases (text_eq (codes "block0.bin") p)) [
    | inl b ↦
        subst (λ t. same (heading_of t) h ≡ is_listed h t) (text_eq-eq _ p b) (block0-listed h)
    | inr b ↦ elim (Bool-cases (text_eq (codes "genesis.yaml") p)) [
      | inl c ↦
          subst (λ t. same (heading_of t) h ≡ is_listed h t) (text_eq-eq _ p c) (genesis-listed h)
      | inr c ↦ other-listed h p a b c
    ]
  ]
]

relative-front : (r p : Text) → IsPlain r p → relative r (front r ++ p) ≡ p
unfolding relative
relative-front r p (slashes, once) =
    ap (replace (front r) []) (replace-none b'\\' [] (codes "/") (front r ++ p) slashes)
    ∙ replace-front b'.' (b'/' ∷ (r ++ codes "/")) p once

under-listed :
    (h : Heading) (r : Text) (paths : List Text)
    → All (IsPlain r) paths
    → under h (map (relative r) (map (λ p. front r ++ p) paths)) ≡ filter (is_listed h) paths
under-listed h r [] plain = refl
under-listed h r (p ∷ paths) (plain, rest) =
    rw (relative-front r p plain, heading_of-listed h p, under-listed h r paths rest)

pub dump_json-is_listed :
    (walker : Walker) (root r : Text) (paths : List Text)
    → file_name root ≡ some r
    → All (IsPlain r) paths
    → files_of (walker.walk root (λ name. not (contains (codes "storage.db") name)))
      ≡ some (map (λ p. front r ++ p) paths)
    → (d : FolderDump) × (dump_json walker root ≡ returns (ok d))
      × ((h : Heading) → d.content h ≡ filter (is_listed h) paths)
unfolding is_storage
dump_json-is_listed walker root r paths e plain f =
    let (d, run, content) = dump_json-under walker root r (map (λ p. front r ++ p) paths) e f in
    (d, run, λ h. content h ∙ under-listed h r paths plain)
