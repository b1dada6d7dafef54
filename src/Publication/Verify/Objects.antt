-- ===== src/Publication/Verify/Objects.antt =====
-- store_object of src/quantara/publication.py under a payload's own hash.
use quantara.Prelude.{
  ◌≡◌, refl, sym, ap, ◌∙◌, false, Bool-cases, Option, none, some, [], ◌∷◌, inl, inr, if_true,
  if_false,
}
use quantara.Text.{Text, text_eq, text_eq_iff, text_eq_refl}
use quantara.Errors.{ok, >>=-eq-ok, ok_injective}
use quantara.Publication.{
  Bytes, Disk, StoredObject, find, object_path, address_of, is_none, link_object, store_object,
}
use quantara.Publication.Keeps.{err_ok}
use quantara.Publication.Verify.{verify_object, verify_refs}

-- After an unforced write the path holds the payload.
link_object-find :
    (disk : Disk) (address path : Text) (payload : Bytes) (held : Option Bytes) (o : StoredObject)
    (after : Disk)
    → find path disk.objects ≡ held
    → link_object disk address path payload false held ≡ ok (o, after)
    → find path after.objects ≡ some payload
unfolding link_object find
link_object-find disk address path payload none o after e h =
    ap (λ (p : StoredObject × Disk). find path (p.1.objects)) (sym (ok_injective h))
    ∙ if_true _ _ _ (text_eq_refl path)
link_object-find disk address path payload (some held) o after e h =
    elim (Bool-cases (text_eq held payload)) [
      | inl same ↦
          ap (λ (p : StoredObject × Disk). find path (p.1.objects))
            (sym (ok_injective (sym (if_true _ _ _ same) ∙ h)))
          ∙ e
          ∙ ap some ((text_eq_iff held payload).0 same)
      | inr differ ↦ absurd (err_ok (sym (if_false _ _ _ differ) ∙ h))
    ]

module _ (sha256 : Bytes → Text) where
  -- A write without a forced digest leaves an object that verifies under the payload's own hash, and
  -- the same write again reports that nothing was created and changes nothing.
  pub store_object_again :
      (disk : Disk) (kind : Text) (payload : Bytes) (o : StoredObject) (after : Disk)
      → store_object sha256 disk kind payload none ≡ ok (o, after)
      → (verify_refs sha256 after.objects ((kind, sha256 payload) ∷ []) ≡ ok tt)
        × (store_object sha256 after kind payload none
            ≡ ok (record { sha256 = sha256 payload; created = false }, after))
  unfolding store_object verify_refs verify_object address_of is_none link_object
  store_object_again disk kind payload o after h =
      let (path, p, linked) = >>=-eq-ok (object_path kind (sha256 payload)) _ h in
      let held =
        link_object-find disk (sha256 payload) path payload (find path disk.objects) o after refl
          linked in
      (rw (p, held, text_eq_refl (sha256 payload)) refl, rw (p, held, text_eq_refl payload) refl)
