-- ===== src/Explain/Transparent.antt =====
-- What a client and the server see of `handle_request` of src/serve/explain/layer.rs.
use mongod_proxy.Ids.{RequestId}
use mongod_proxy.Ids.ExplainRequestId.{ExplainRequestId}
use mongod_proxy.Message.Defs.{Message}
use mongod_proxy.Bson.{Bson}
use mongod_proxy.Bson.Documents.{Documents, IsDocuments}
use mongod_proxy.Bytes.Defs.{Bytes}
use mongod_proxy.Ids.ExplainRequestId
use mongod_proxy.Explain.Build.{unsupported_shape, built, BuildExplainOutcome, build_explain}
use mongod_proxy.Explain.Classify.{ClassifiedRequest, classify}
use mongod_proxy.Explain.Envelope.{IsExplain, build_explain-IsExplain}
use mongod_proxy.Explain.RequestId.{RequestIdExhausted, pred, is_exhausted, alloc_request_id}
use mongod_proxy.Explain.Layer.{
  drained, from_item, run_explain, forward, after_forward, ExplainService, explain_phase, Prepared,
  prepare, built_with, allocated, handle_request,
}
use mongod_proxy.Explain.Parse.{ReplyReader}
use mongod_proxy.Service.Defs.{Service, Item, value, failure, values, collect}
use mongod_proxy.Prelude.{
  append_assoc, append-nil, ◌∙◌, ◌++◌, ◌∷◌, [], ap, sym, List, arith, ◌⊎◌, subst, inr, inl, ◌≡◌,
  Result, ℤ, ltb_ℤ, Option, out_of_fuel, err, ok, negsuc, pos, none, some, true, refl,
}

alloc_negative :
    (cur : ℤ) {rid : ExplainRequestId}
    → (alloc_request_id cur).0 ≡ ok rid
    → ltb_ℤ rid (pos 0) ≡ true
unfolding alloc_request_id is_exhausted pred ExplainRequestId.try_new
alloc_negative (pos n) h = cc
alloc_negative (negsuc n) h = ground arith

-- What a client gets of the items of a stream: all its replies if no item is an error, and otherwise
-- the first error, without the replies in front of it.
abbrev pub IsCollected : {E A : Type 0} → Result E (List (Item E A)) → Result E (List A) → Type 0
IsCollected (ok items) (ok replies) = items ≡ values replies
IsCollected {A = A} (ok items) (err e) =
    (dropped : List A) × (rest : List (Item _ A)) × (items ≡ values dropped ++ (failure e ∷ rest))
IsCollected (ok items) out_of_fuel = ⊥
IsCollected (err e) r = r ≡ err e
IsCollected out_of_fuel r = r ≡ out_of_fuel

module _ {E A : Type 0} where
  abbrev IsGathered : List A → List (Item E A) → Item E (List A) → Type 0
  IsGathered out items (value replies) = (xs : List A) × (items ≡ values xs) × (replies ≡ out ++ xs)
  IsGathered out items (failure e) =
      (dropped : List A) × (rest : List (Item E A)) × (items ≡ values dropped ++ (failure e ∷ rest))

  collect-IsGathered_push :
      (out : List A) (a : A) (items : List (Item E A)) (r : Item E (List A))
      → IsGathered (out ++ (a ∷ [])) items r
      → IsGathered out (value a ∷ items) r
  collect-IsGathered_push out a items (value replies) (xs, e, k) =
      (a ∷ xs, ap (λ (l : List (Item E A)). value a ∷ l) e, k ∙ append_assoc out (a ∷ []) xs)
  collect-IsGathered_push out a items (failure x) (dropped, rest, e) =
      (a ∷ dropped, rest, ap (λ (l : List (Item E A)). value a ∷ l) e)

  collect-IsGathered :
      (out : List A) (items : List (Item E A)) → IsGathered out items (collect out items)
  unfolding collect
  collect-IsGathered out [] = ([], refl, sym (append-nil out))
  collect-IsGathered out (value a ∷ items) =
      collect-IsGathered_push out a items (collect (out ++ (a ∷ [])) items)
        (collect-IsGathered (out ++ (a ∷ [])) items)
  collect-IsGathered out (failure e ∷ items) = ([], items, refl)

module _ (bson : Bson) (docs : Documents bson.Document) (laws : IsDocuments bson docs)
    (reader : ReplyReader bson.Document docs.Value bson.Error) (to_lowercase : Bytes → Bytes)
    (S : Type 0) where
  open bson use {Document, Error}

  -- An explain of the proxy's own: it has a negative id, is called `explain`, waits for its reply,
  -- and would not be explained in turn.
  pub record IsSideband (m : Message Document) : Type 0 where
    pub explain : IsExplain bson docs laws m m.request_id to_lowercase
    pub negative : ltb_ℤ m.request_id (pos 0) ≡ true

  abbrev pub IsPrepared : Option (Prepared bson docs reader to_lowercase S) → Type 0
  IsPrepared none = Unit
  IsPrepared (some (command, (rid, err e))) = Unit
  IsPrepared (some (command, (rid, out_of_fuel))) = Unit
  IsPrepared (some (command, (rid, ok m))) = IsSideband m × (rid ≡ some m.request_id)

  built_with-IsPrepared :
      (plan : ClassifiedRequest Document) (rid : ExplainRequestId)
      (o : BuildExplainOutcome Document)
      → ltb_ℤ rid (pos 0) ≡ true
      → build_explain bson docs plan rid ≡ o
      → IsPrepared (some (plan.command, built_with bson docs reader to_lowercase S rid o))
  unfolding built_with
  built_with-IsPrepared plan rid (built m) neg e =
      let x = build_explain-IsExplain bson docs laws to_lowercase plan rid m e in
      (
        record {
          explain = subst (λ id. IsExplain bson docs laws m id to_lowercase) (sym x.stamped) x;
          negative = subst (λ id. ltb_ℤ id (pos 0) ≡ true) (sym x.stamped) neg;
        },
        ap (λ id. some id) (sym x.stamped),
      )
  built_with-IsPrepared plan rid (unsupported_shape r) neg e = tt

  allocated-IsPrepared :
      (plan : ClassifiedRequest Document) (r : Result RequestIdExhausted ExplainRequestId)
      → ((rid : ExplainRequestId) → r ≡ ok rid → ltb_ℤ rid (pos 0) ≡ true)
      → IsPrepared (some (plan.command, allocated bson docs reader to_lowercase S plan r))
  unfolding allocated
  allocated-IsPrepared plan (ok rid) neg =
      built_with-IsPrepared plan rid (build_explain bson docs plan rid) (neg rid refl) refl
  allocated-IsPrepared plan (err e) neg = tt
  allocated-IsPrepared plan out_of_fuel neg = tt

  pub prepare-IsPrepared :
      (c : Option (ClassifiedRequest Document)) (counter : ℤ)
      → IsPrepared (prepare bson docs reader to_lowercase S c counter).0
  unfolding prepare
  prepare-IsPrepared none counter = tt
  prepare-IsPrepared (some plan) counter =
      allocated-IsPrepared plan (alloc_request_id counter).0 (λ rid. alloc_negative counter)

  module _ (inner : Service (Message Document) S) where
    abbrev Handler : Type 0
    Handler = ExplainService bson docs reader to_lowercase S inner

    abbrev forwarded :
        inner.State → Message Document → Result S (List (Message Document)) × inner.State
    forwarded = forward bson docs reader to_lowercase S inner

    from_item-IsCollected :
        (items : List (Item S (Message Document))) (r : Item S (List (Message Document)))
        → IsGathered [] items r
        → IsCollected (ok items) (from_item bson docs reader to_lowercase S r)
    unfolding from_item
    from_item-IsCollected items (value replies) (xs, e, k) = e ∙ ap (λ l. values l) (sym k)
    from_item-IsCollected items (failure x) h = h

    drained-IsCollected :
        (r : Result S (List (Item S (Message Document))))
        → IsCollected r (drained bson docs reader to_lowercase S r)
    unfolding drained
    drained-IsCollected (ok items) =
        from_item-IsCollected items (collect [] items) (collect-IsGathered [] items)
    drained-IsCollected (err e) = refl
    drained-IsCollected out_of_fuel = refl

    -- Where the inner service stands behind one request: it got that request alone, or one explain
    -- of the proxy's own behind it.
    abbrev pub IsForwarded : inner.State → Message Document → inner.State → Type 0
    IsForwarded before req after =
        (after ≡ (inner.call before req).1)
        ⊎ ((m : Message Document) × IsSideband m
            × (after ≡ (inner.call (inner.call before req).1 m).1))

    explain_phase-IsForwarded :
        (cid : RequestId) (p : Option (Prepared bson docs reader to_lowercase S)) (s : Handler)
        → IsPrepared p
        → ((explain_phase bson docs reader to_lowercase S inner cid p s).state ≡ s.state)
          ⊎ ((m : Message Document) × IsSideband m
              × ((explain_phase bson docs reader to_lowercase S inner cid p s).state
                  ≡ (inner.call s.state m).1))
    unfolding explain_phase run_explain
    explain_phase-IsForwarded cid none s h = inl refl
    explain_phase-IsForwarded cid (some (command, (rid, err e))) s h = inl refl
    explain_phase-IsForwarded cid (some (command, (rid, out_of_fuel))) s h = inl refl
    explain_phase-IsForwarded cid (some (command, (rid, ok m))) s h = inr (m, h.0, refl)

    after_forward-IsForwarded :
        (cid : RequestId) (p : Option (Prepared bson docs reader to_lowercase S))
        (r : Result S (List (Message Document))) (s : Handler)
        → IsPrepared p
        → ((after_forward bson docs reader to_lowercase S inner cid p r s).0 ≡ r)
          × (((after_forward bson docs reader to_lowercase S inner cid p r s).1.state ≡ s.state)
              ⊎ ((m : Message Document) × IsSideband m
                  × ((after_forward bson docs reader to_lowercase S inner cid p r s).1.state
                      ≡ (inner.call s.state m).1)))
    unfolding after_forward
    after_forward-IsForwarded cid p (ok replies) s h = (refl, explain_phase-IsForwarded cid p s h)
    after_forward-IsForwarded cid p (err e) s h = (refl, inl refl)
    after_forward-IsForwarded cid p out_of_fuel s h = (refl, inl refl)

    pub handle_request-forward :
        (s : Handler) (req : Message Document)
        → ((handle_request bson docs reader to_lowercase S inner s req).0
            ≡ (forwarded s.state req).0)
          × IsForwarded s.state req
              (handle_request bson docs reader to_lowercase S inner s req).1.state
    unfolding handle_request forward
    handle_request-forward s req =
        let prepared =
          prepare bson docs reader to_lowercase S (classify bson docs to_lowercase req)
            s.next_request_id in
        let got = forwarded s.state req in
        after_forward-IsForwarded req.request_id prepared.0 got.0
          (record s { state = got.1; next_request_id = prepared.1 })
          (prepare-IsPrepared (classify bson docs to_lowercase req) s.next_request_id)

    -- Under the laws of documents, the explain layer gives a client all the replies that the
    -- inner service gives to its request; if there is an error among them or in their place, the
    -- client gets the first such error alone. The inner service has got either that request alone
    -- or, behind it, one more request, which has a negative id, is called `explain`, waits for
    -- its reply and would not be explained itself.
    pub handle_request-IsForwarded :
        (s : Handler) (req : Message Document)
        → IsCollected
            (inner.call s.state req).0
            (handle_request bson docs reader to_lowercase S inner s req).0
          × IsForwarded s.state req
              (handle_request bson docs reader to_lowercase S inner s req).1.state
    unfolding forward
    handle_request-IsForwarded s req =
        let (same, after) = handle_request-forward s req in
        (
          subst (IsCollected (inner.call s.state req).0) (sym same)
              (drained-IsCollected (inner.call s.state req).0),
          after,
        )
