-- ===== src/Service/Defs.antt =====
-- tower's `Service<Message>` as the layers of src/serve/ use it, with the state passed explicitly. A
-- poll that is pending changes nothing and has no counterpart: a stream is the items that it yields.
use mongod_proxy.Prelude.{append_assoc, ◌∙◌, append-nil, sym, ap, ◌++◌, Result, ◌≡◌, ◌∷◌, [], List}

-- One item of a reply stream, and the outcome of one call.
pub data Item {ℓ κ} (E : Type ℓ) (A : Type κ) : Type (ℓ ⊔ κ) where
  value : A → Item E A
  failure : E → Item E A

-- The state that a call gives back is that behind the last item of its stream. A stream that fails
-- ends with its failure, as that of `ProxyClient` does.
pub record Service (Request : Type 0) (E : Type 0) : Type 1 where
  pub State : Type 0
  pub call : State → Request → Result E (List (Item E Request)) × State

-- `while let Some(item) = stream.next().await { out.push_back(item?) }`.
unfoldable pub collect : {E A : Type 0} → List A → List (Item E A) → Item E (List A)
collect out [] = value out
collect out (value a ∷ items) = collect (out ++ (a ∷ [])) items
collect out (failure e ∷ items) = failure e

abbrev pub values : {E A : Type 0} → List A → List (Item E A)
values [] = []
values (a ∷ xs) = value a ∷ values xs

pub collect-values :
    {E A : Type 0} (out xs : List A) → collect {E = E} out (values xs) ≡ value (out ++ xs)
unfolding collect
collect-values out [] = ap (λ (l : List _). value l) (sym (append-nil out))
collect-values out (a ∷ xs) =
    collect-values (out ++ (a ∷ [])) xs
    ∙ ap (λ (l : List _). value l) (append_assoc out (a ∷ []) xs)
