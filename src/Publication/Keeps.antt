-- ===== src/Publication/Keeps.antt =====
-- What the calls of a publisher (src/quantara/publication.py) keep of a disk.
use quantara.Prelude.{
  if_true, if_false, ◌||◌, ◌≡◌, refl, sym, ap, ◌∙◌, inl, inr, true, false, not, ◌&&◌, Bool,
  Bool-cases, Option, none, some, List, [], ◌∷◌, subst,
}
use quantara.Text.{Text, text_eq, text_eq_iff}
use quantara.Errors.{Error, raise_if-eq-ok, ok, err, publication_error, >>=-eq-ok, ok_injective}
use quantara.Publication.{
  Bytes, Disk, StoredObject, Directory, find, object_path, address_of, is_none, link_object,
  store_object, publish_commit, rename_commit, stage_commit,
}

pub err_ok {ℓ} : {A : Type ℓ} {a : A} {e : Error} → err e ≡ ok a → ⊥
err_ok h = cc

is_none-none {ℓ} : {A : Type ℓ} (o : Option A) → is_none o ≡ true → o ≡ none
unfolding is_none
is_none-none none h = refl
is_none-none (some a) h = cc

or_not : (a b : Bool) → (a || not b) ≡ false → b ≡ true
or_not false true h = refl
or_not false false h = cc
or_not true b h = cc

-- A new entry hides none that is there.
pub find-new {ℓ} :
    {A : Type ℓ} (name key : Text) (a b : A) (entries : List (Text × A))
    → find name entries ≡ some a
    → find key entries ≡ none
    → find name ((key, b) ∷ entries) ≡ some a
unfolding find
find-new name key a b entries there absent = elim (Bool-cases (text_eq name key)) [
  | inl same ↦ let here : find name entries ≡ none = rw ((text_eq_iff name key).0 same) absent in cc
  | inr differ ↦ rw differ there
]

-- An entry that was there is there with the same value.
abbrev pub Kept {ℓ} : {A : Type ℓ} → (before after : List (Text × A)) → Type ℓ
Kept {A = A} before after =
    (name : Text) (a : A) → find name before ≡ some a → find name after ≡ some a

Kept-new {ℓ} :
    {A : Type ℓ} (key : Text) (b : A) (entries : List (Text × A))
    → find key entries ≡ none
    → Kept entries ((key, b) ∷ entries)
Kept-new key b entries absent = λ name a there. find-new name key a b entries there absent

-- The disk has all that it had, and the same pointer.
abbrev pub Grows : (before after : Disk) → Type 0
Grows before after =
    Kept before.objects after.objects
    × Kept before.commits after.commits
    × (after.current ≡ before.current)

Kept-refl {ℓ} : {A : Type ℓ} (entries : List (Text × A)) → Kept entries entries
Kept-refl entries = λ name a there. there

Grows-refl : (disk : Disk) → Grows disk disk
Grows-refl disk = (Kept-refl disk.objects, Kept-refl disk.commits, refl)

link_object-Grows :
    (disk : Disk) (address path payload : Text) (forced : Bool) (held : Option Bytes)
    (o : StoredObject) (after : Disk)
    → find path disk.objects ≡ held
    → link_object disk address path payload forced held ≡ ok (o, after)
    → Grows disk after
unfolding link_object
link_object-Grows disk address path payload forced none o after absent h =
    subst (λ d. Grows disk d) (ap (λ p. p.1) (ok_injective h))
      (Kept-new path payload disk.objects absent, Kept-refl disk.commits, refl)
link_object-Grows disk address path payload forced (some held) o after there h =
    elim (Bool-cases (not forced && text_eq held payload)) [
      | inl same ↦
          subst (λ d. Grows disk d) (ap (λ p. p.1) (ok_injective (sym (if_true _ _ _ same) ∙ h)))
            (Grows-refl disk)
      | inr other ↦ absurd (err_ok (sym (if_false _ _ _ other) ∙ h))
    ]

pub store_object-Grows :
    (sha256 : Bytes → Text) (disk : Disk) (kind payload : Text) (digest : Option Text)
    (o : StoredObject) (after : Disk)
    → store_object sha256 disk kind payload digest ≡ ok (o, after)
    → Grows disk after
unfolding store_object
store_object-Grows sha256 disk kind payload digest o after h =
    let (path, p, linked) = >>=-eq-ok (object_path kind (address_of (sha256 payload) digest)) _ h in
    link_object-Grows disk (address_of (sha256 payload) digest) path payload (not (is_none digest))
      (find path disk.objects) o after refl linked

rename_commit-Grows :
    (disk : Disk) (attempt_id content_hash : Text) (staged : Option Directory) (after : Disk)
    → find content_hash disk.commits ≡ none
    → rename_commit disk attempt_id content_hash staged ≡ ok after
    → Grows disk after
unfolding rename_commit
rename_commit-Grows disk attempt_id content_hash none after fresh h = absurd (err_ok h)
rename_commit-Grows disk attempt_id content_hash (some directory) after fresh h =
    subst (λ d. Grows disk d) (ok_injective h)
      (Kept-refl disk.objects, Kept-new content_hash _ disk.commits fresh, refl)

pub publish_commit-Grows :
    (disk : Disk) (attempt_id content_hash : Text) (after : Disk)
    → publish_commit disk attempt_id content_hash ≡ ok after
    → Grows disk after
unfolding publish_commit
publish_commit-Grows disk attempt_id content_hash after h =
    let (fresh, renamed) =
      raise_if-eq-ok (text_eq content_hash [] || not (is_none (find content_hash disk.commits)))
        publication_error _ h in
    rename_commit-Grows disk attempt_id content_hash (find attempt_id disk.staging) after
      (is_none-none (find content_hash disk.commits) (or_not _ _ fresh)) renamed

pub stage_commit-Grows :
    (disk : Disk) (attempt_id : Text) (files : List (Text × Bytes))
    → Grows disk (stage_commit disk attempt_id files).0
unfolding stage_commit
stage_commit-Grows disk attempt_id files = Grows-refl disk
