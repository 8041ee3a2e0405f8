-- ===== src/Probe/Says.antt =====
-- What a reply says of its host, for `extract_is_writable_primary` of src/serve/probe.rs.
use mongod_proxy.Message.Defs.{Message}
use mongod_proxy.Operation.Defs.{Operation}
use mongod_proxy.Operation.OpMsg.Defs.{OperationMessage, OpMsgSection}
use mongod_proxy.Bytes.Text.{ascii}
use mongod_proxy.Probe.Defs.{writable_of, writable_in, writable_from, extract_is_writable_primary}
use mongod_proxy.Bytes.Defs.{Bytes}
use mongod_proxy.Prelude.{
  ◌⊎◌, ◌++◌, All, ap, ◌≡◌, List, Bool, Option, ◌∷◌, inr, inl, [], none, some, refl,
}

module _ {Document : Type 0} (get_bool : Document → Bytes → Option Bool) where
  -- The modern field, or the legacy one where the modern one is missing or no Boolean.
  abbrev pub SaysIn : Document → Bool → Type 0
  SaysIn doc b =
      (get_bool doc (ascii "isWritablePrimary") ≡ some b)
      ⊎ ((get_bool doc (ascii "isWritablePrimary") ≡ none)
          × (get_bool doc (ascii "ismaster") ≡ some b))

  abbrev pub IsSilentDoc : Document → Type 0
  IsSilentDoc doc =
      (get_bool doc (ascii "isWritablePrimary") ≡ none) × (get_bool doc (ascii "ismaster") ≡ none)

  abbrev pub IsSilent : OpMsgSection Document → Type 0
  IsSilent (OpMsgSection.body doc) = IsSilentDoc doc
  IsSilent (OpMsgSection.document_sequence id docs) = Unit

  -- The first body that has a field decides.
  abbrev pub SaysFrom : List (OpMsgSection Document) → Bool → Type 0
  SaysFrom sections b =
      (before : List (OpMsgSection Document)) × (doc : Document) × (behind : List
        (OpMsgSection Document))
      × (sections ≡ before ++ (OpMsgSection.body doc ∷ behind))
      × All IsSilent before
      × SaysIn doc b

  abbrev pub Says : Operation Document → Bool → Type 0
  Says (Operation.message m) b = SaysFrom m.sections b
  Says (Operation.reply r) b = ⊥
  Says (Operation.query q) b = ⊥

  abbrev pub SaysNothing : Operation Document → Type 0
  SaysNothing (Operation.message m) = All IsSilent m.sections
  SaysNothing (Operation.reply r) = Unit
  SaysNothing (Operation.query q) = Unit

  abbrev IsSaidIn : Document → Option Bool → Type 0
  IsSaidIn doc none = IsSilentDoc doc
  IsSaidIn doc (some b) = SaysIn doc b

  abbrev IsSaidFrom : List (OpMsgSection Document) → Option Bool → Type 0
  IsSaidFrom sections none = All IsSilent sections
  IsSaidFrom sections (some b) = SaysFrom sections b

  abbrev pub IsSaid : Operation Document → Option Bool → Type 0
  IsSaid op none = SaysNothing op
  IsSaid op (some b) = Says op b

  legacy :
      (doc : Document) (o : Option Bool)
      → get_bool doc (ascii "isWritablePrimary") ≡ none
      → get_bool doc (ascii "ismaster") ≡ o
      → IsSaidIn doc o
  legacy doc none h k = (h, k)
  legacy doc (some b) h k = inr (h, k)

  modern :
      (doc : Document) (o : Option Bool)
      → get_bool doc (ascii "isWritablePrimary") ≡ o
      → IsSaidIn doc (elim o [ some v ↦ some v | none ↦ get_bool doc (ascii "ismaster") ])
  modern doc none h = legacy doc (get_bool doc (ascii "ismaster")) h refl
  modern doc (some b) h = inl h

  writable_in-IsSaidIn : (doc : Document) → IsSaidIn doc (writable_in get_bool doc)
  unfolding writable_in
  writable_in-IsSaidIn doc = modern doc (get_bool doc (ascii "isWritablePrimary")) refl

  behind_silent :
      (x : OpMsgSection Document) (sections : List (OpMsgSection Document)) (o : Option Bool)
      → IsSilent x
      → IsSaidFrom sections o
      → IsSaidFrom (x ∷ sections) o
  behind_silent x sections none h hs = (h, hs)
  behind_silent x sections (some b) h (before, doc, behind, e, silent, said) = (
    x ∷ before,
    doc,
    behind,
    ap (λ (l : List (OpMsgSection Document)). x ∷ l) e,
    (h, silent),
    said,
  )

  in_body :
      (doc : Document) (sections : List (OpMsgSection Document)) (o rest : Option Bool)
      → IsSaidIn doc o
      → IsSaidFrom sections rest
      → IsSaidFrom (OpMsgSection.body doc ∷ sections) (elim o [ some v ↦ some v | none ↦ rest ])
  in_body doc sections none rest h hs = behind_silent (OpMsgSection.body doc) sections rest h hs
  in_body doc sections (some b) rest h hs = ([], doc, sections, refl, tt, h)

  writable_from-IsSaidFrom :
      (sections : List (OpMsgSection Document))
      → IsSaidFrom sections (writable_from get_bool sections)
  unfolding writable_from
  writable_from-IsSaidFrom [] = tt
  writable_from-IsSaidFrom (OpMsgSection.body doc ∷ sections) =
      in_body doc sections (writable_in get_bool doc) (writable_from get_bool sections)
        (writable_in-IsSaidIn doc) (writable_from-IsSaidFrom sections)
  writable_from-IsSaidFrom (OpMsgSection.document_sequence id docs ∷ sections) =
      behind_silent (OpMsgSection.document_sequence id docs) sections
        (writable_from get_bool sections) tt (writable_from-IsSaidFrom sections)

  in_message :
      (m : OperationMessage Document) (o : Option Bool)
      → IsSaidFrom m.sections o
      → IsSaid (Operation.message m) o
  in_message m none h = h
  in_message m (some b) h = h

  writable_of-IsSaid : (op : Operation Document) → IsSaid op (writable_of get_bool op)
  unfolding writable_of
  writable_of-IsSaid (Operation.message m) =
      in_message m (writable_from get_bool m.sections) (writable_from-IsSaidFrom m.sections)
  writable_of-IsSaid (Operation.reply r) = tt
  writable_of-IsSaid (Operation.query q) = tt

  -- A reply is read as the value of the first body that has a field, the modern field before the
  -- legacy one, and as nothing exactly where no body has one or it is no OP_MSG.
  pub extract-IsSaid :
      (m : Message Document) → IsSaid m.operation (extract_is_writable_primary get_bool m)
  unfolding extract_is_writable_primary
  extract-IsSaid m = writable_of-IsSaid m.operation
