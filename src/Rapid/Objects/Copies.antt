-- ===== src/Rapid/Objects/Copies.antt =====
-- Copies that a copy constructor makes which copies the pointers as they are.
use abb_librws.Base.{
  ℕ, ◌==◌, ==_refl, ==_sym_false, false, Text, length, List, [], ◌∷◌, some, ◌≡◌, refl, ap, sym, ◌∙◌,
}
use abb_librws.Rapid.Atoms.{Floats, Parsed}
use abb_librws.Rapid.Symbols.{Symbol, struct, construct}
use abb_librws.Rapid.Symbols.Shapes.{object_of}
use abb_librws.Rapid.Records.{all_of}
use abb_librws.Rapid.Objects.{
  Object, Memory, pointers, place, copy_object, write, object_text, object_parse,
}
use abb_librws.Rapid.Objects.Owning.{
  IsOwning, write-other, parsed_fields, object_text-pointers, object_parse-pointers,
}

module _ {Num Dnum : Type 0} where
  -- A copy of the object at `source` is made at `copy`, and then its fields are written to.
  abbrev pub assigns : ℕ → List (ℕ × Symbol Num Dnum) → Memory Num Dnum → Memory Num Dnum
  assigns copy [] memory = memory
  assigns copy ((i, s) ∷ rest) memory =
      write (record { object = copy; field = i }) s (assigns copy rest memory)

  assigns-components :
      (copy : ℕ) (ws : List (ℕ × Symbol Num Dnum)) (memory : Memory Num Dnum)
      → (assigns copy ws memory copy).components ≡ (memory copy).components
  unfolding write place
  assigns-components copy [] memory = refl
  assigns-components copy ((i, s) ∷ rest) memory =
      rw (==_refl copy) (assigns-components copy rest memory)

  assigns-other :
      (copy other : ℕ) (ws : List (ℕ × Symbol Num Dnum)) (memory : Memory Num Dnum)
      → (other == copy) ≡ false
      → assigns copy ws memory other ≡ memory other
  assigns-other copy other [] memory h = refl
  assigns-other copy other ((i, s) ∷ rest) memory h =
      write-other (assigns copy rest memory) copy other i s h
      ∙ assigns-other copy other rest memory h

  -- The memory after a copy at another place, and writes to the fields of the copy
  abbrev pub after_copy : Memory Num Dnum → ℕ → ℕ → List (ℕ × Symbol Num Dnum) → Memory Num Dnum
  after_copy memory source copy ws =
      assigns copy ws (place copy (copy_object (memory source)) memory)

module _ {Num Dnum : Type 0} (fl : Floats Num Dnum) (memory : Memory Num Dnum) (source copy : ℕ)
    (owning : IsOwning memory source) (elsewhere : (source == copy) ≡ false)
    (ws : List (ℕ × Symbol Num Dnum)) where
  copied-components :
      (after_copy memory source copy ws copy).components
      ≡ pointers source 0 (length (memory source).fields)
  unfolding place copy_object
  copied-components =
      assigns-components copy ws (place copy (copy_object (memory source)) memory)
      ∙ rw (==_refl copy) owning

  source_kept : after_copy memory source copy ws source ≡ memory source
  unfolding place
  source_kept =
      assigns-other copy source ws (place copy (copy_object (memory source)) memory) elsewhere
      ∙ rw elsewhere refl

  copied-pointers :
      (after_copy memory source copy ws copy).components
      ≡ pointers source 0 (length (after_copy memory source copy ws source).fields)
  copied-pointers =
      copied-components
      ∙ ap (λ (o : Object Num Dnum). pointers source 0 (length o.fields)) (sym source_kept)

  -- Whatever is written to the fields of a copy, at another place, of an object that owned its components, the
  -- text of the copy stays that of the fields of its source.
  pub object_text-copy :
      object_text fl (after_copy memory source copy ws) copy
      ≡ some
          (construct fl (struct (memory source).record_type_name (all_of (memory source).fields)))
  object_text-copy =
      object_text-pointers fl (after_copy memory source copy ws) copy source
        (memory source).record_type_name copied-pointers
      ∙ ap
          (λ (o : Object Num Dnum).
            some (construct fl (struct (memory source).record_type_name (all_of o.fields))))
          source_kept

  -- A parse into a copy, at another place, of an object that owned its components leaves the copy as it is,
  -- whatever was written to it, and puts what a parse of the text leaves into the fields of the source.
  pub object_parse-copy :
      (t : Text)
      → (q : Parsed (Memory Num Dnum)) × (object_parse fl (after_copy memory source copy ws) copy t
          ≡ some q)
        × ((object_of q source).fields
            ≡ parsed_fields fl (memory source).record_type_name (memory source).fields t)
        × (object_of q copy ≡ after_copy memory source copy ws copy)
  object_parse-copy t =
      let m : Memory Num Dnum = after_copy memory source copy ws in
      let n = (memory source).record_type_name in
      let (q, e, fields, others, thrown) =
        object_parse-pointers fl m copy source n t copied-pointers in
      (
        q,
        e,
        fields ∙ ap (λ (o : Object Num Dnum). parsed_fields fl n o.fields t) source_kept,
        others copy (==_sym_false source copy elsewhere),
      )
