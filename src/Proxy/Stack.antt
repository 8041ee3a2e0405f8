-- ===== src/Proxy/Stack.antt =====
-- The services that `Proxy::call` of src/serve/service.rs puts around the client of one upstream
-- connection: hello replies are rewritten innermost, and the explain layer of `enable_explain` stands
-- around that.
use mongod_proxy.Hello.Defs.{is_hello_request, rewrite_hello_service}
use mongod_proxy.Service.Upstream.{proxy_client, RequestError}
use mongod_proxy.Prelude.{
  ◌∙◌, sym, subst, true, refl, All-append, ◌++◌, Result, ◌≡◌, All, List, ◌∷◌, out_of_fuel, err, ok,
  [],
}
use mongod_proxy.Bson.{Bson}
use mongod_proxy.Bson.Documents.{Documents, IsDocuments}
use mongod_proxy.Bytes.Defs.{Bytes}
use mongod_proxy.Explain.Layer.{
  from_item, explain_service, drained, ExplainService, handle_request, forward,
}
use mongod_proxy.Explain.Parse.{ReplyReader}
use mongod_proxy.Explain.Transparent.{handle_request-forward}
use mongod_proxy.Hello.Defs
use mongod_proxy.Hello.Stripped
use mongod_proxy.Hello.Stripped.{IsStrippedOperation, IsStrippedItem}
use mongod_proxy.Message.Defs.{Message}
use mongod_proxy.Proxy.Startup.{Proxy}
use mongod_proxy.Service.Defs.{Service, Item, value, failure, collect}

module _ (bson : Bson) (docs : Documents bson.Document)
    (reader : ReplyReader bson.Document docs.Value bson.Error) (to_lowercase : Bytes → Bytes) where
  open bson use {Document, Error}

  -- The rewriting layer, which the switch of the proxy enables.
  abbrev pub rewritten : Proxy → Service (Message Document) (RequestError bson)
  rewritten proxy = rewrite_hello_service bson docs (proxy_client bson) proxy.rewrite_hello

  -- The explain layer around it, as `enable_explain` composes them.
  abbrev pub stack : Proxy → Service (Message Document) (RequestError bson)
  stack proxy = explain_service bson docs reader to_lowercase (RequestError bson) (rewritten proxy)

  value-same : {S A : Type 0} {a b : A} → ◌≡◌ {A = Item S A} (value a) (value b) → a ≡ b
  value-same e = cc

  from_item-eq-ok :
      {S : Type 0} (x : Item S (List (Message Document))) {replies : List (Message Document)}
      → from_item bson docs reader to_lowercase S x ≡ ok replies
      → x ≡ value replies
  unfolding from_item
  from_item-eq-ok (value l) e = cc
  from_item-eq-ok (failure x) e = cc

  collect-All :
      {S : Type 0} (out : List (Message Document)) (items : List (Item S (Message Document)))
      {replies : List (Message Document)}
      → All (λ (m : Message Document). IsStrippedOperation bson docs m.operation) out
      → All (IsStrippedItem bson docs) items
      → collect out items ≡ value replies
      → All (λ (m : Message Document). IsStrippedOperation bson docs m.operation) replies
  unfolding collect
  collect-All out [] h hs e =
      subst
        (λ (l : List (Message Document)).
          All (λ (m : Message Document). IsStrippedOperation bson docs m.operation) l)
        (value-same e) h
  collect-All out (failure x ∷ items) h hs e = cc
  collect-All out (value m ∷ items) h (k, hs) e =
      collect-All (out ++ (m ∷ [])) items
        (All-append (λ (m : Message Document). IsStrippedOperation bson docs m.operation) out
          (m ∷ []) h (k, tt))
        hs e

  drained-All :
      (r : Result (RequestError bson) (List (Item (RequestError bson) (Message Document))))
      {replies : List (Message Document)}
      → ((items : List (Item (RequestError bson) (Message Document)))
          → r ≡ ok items
          → All (IsStrippedItem bson docs) items)
      → drained bson docs reader to_lowercase (RequestError bson) r ≡ ok replies
      → All (λ (m : Message Document). IsStrippedOperation bson docs m.operation) replies
  unfolding drained from_item
  drained-All (ok items) h e =
      collect-All [] items tt (h items refl) (from_item-eq-ok (collect [] items) e)
  drained-All (err x) h e = cc
  drained-All out_of_fuel h e = cc

  -- Under the laws of documents, when the rewriting is enabled, the request is a hello request
  -- and the explain layer around the rewriting layer around a `ProxyClient` gives replies, no
  -- body of an OP_MSG and no document of an OP_REPLY in them has one of the fields that a driver
  -- reads the topology from.
  pub stack-IsStripped :
      IsDocuments bson docs
      → (proxy : Proxy)
        (s : ExplainService bson docs reader to_lowercase (RequestError bson) (rewritten proxy))
        (req : Message Document) (replies : List (Message Document))
      → proxy.rewrite_hello ≡ true
      → is_hello_request bson docs req ≡ true
      → (handle_request bson docs reader to_lowercase (RequestError bson) (rewritten proxy) s req).0
        ≡ ok replies
      → All (λ (m : Message Document). IsStrippedOperation bson docs m.operation) replies
  unfolding forward
  stack-IsStripped laws proxy s req replies on hello e =
      drained-All ((rewritten proxy).call s.state req).0
        (λ items k.
          Stripped.call-IsStripped bson docs (proxy_client bson) laws s.state req items hello (
            subst (λ b. (Defs.call bson docs (proxy_client bson) b s.state req).0 ≡ ok items) on k))
        (sym
            (handle_request-forward bson docs laws reader to_lowercase (RequestError bson)
              (rewritten proxy) s req).0
          ∙ e)
