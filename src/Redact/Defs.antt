-- ===== src/Redact/Defs.antt =====
-- `RedactedDoc` of src/redact.rs: what the logs show of a document. The rendering is a tree; how
-- `Debug` writes a map, a list, a text and a scalar is the standard library's and the `bson` crate's.
use mongod_proxy.Bytes.Text.{ascii}
use mongod_proxy.Prelude.{◌||◌, if◌then◌else◌, Bool, List, ◌∷◌, [], false}
use mongod_proxy.Bytes.Defs.{Bytes}
use mongod_proxy.Uri.Text.{eq_ignore_ascii_case}

abbrev pub denylist : List Bytes
denylist =
    ascii "payload"
    ∷ ascii "pwd"
    ∷ ascii "password"
    ∷ ascii "key"
    ∷ ascii "clientproof"
    ∷ ascii "serversignature"
    ∷ ascii "speculativeauthenticate"
    ∷ ascii "saslstart"
    ∷ ascii "saslcontinue"
    ∷ ascii "authorization"
    ∷ ascii "sessiontoken"
    ∷ ascii "token"
    ∷ ascii "secret"
    ∷ []

unfoldable pub matches : Bytes → List Bytes → Bool
matches key [] = false
matches key (d ∷ ds) = eq_ignore_ascii_case key d || matches key ds

unfoldable pub is_sensitive_key : Bytes → Bool
unfolding matches
is_sensitive_key key = matches key denylist

-- A document as the rendering tells its values apart. A JavaScript code with scope holds a document
-- too, but it is no case of the source's `match`; `S` has every value that holds none.
mutual
  pub data Fields (S : Type 0) : Type 0 where
    no_fields : Fields S
    field : Bytes → Value S → Fields S → Fields S

  pub data Value (S : Type 0) : Type 0 where
    document : Fields S → Value S
    array : Items S → Value S
    code_with_scope : Bytes → Fields S → Value S
    scalar : S → Value S

  pub data Items (S : Type 0) : Type 0 where
    no_items : Items S
    item : Value S → Items S → Items S

-- What `debug_map` and `debug_list` are given. `shown_code` is the own `Debug` of a code with scope,
-- which shows the code and the whole scope.
mutual
  pub data Rendered (S : Type 0) : Type 0 where
    redacted : Rendered S
    shown : S → Rendered S
    shown_code : Bytes → Fields S → Rendered S
    map : Entries S → Rendered S
    list : Elements S → Rendered S

  pub data Entries (S : Type 0) : Type 0 where
    no_entries : Entries S
    entry : Bytes → Rendered S → Entries S → Entries S

  pub data Elements (S : Type 0) : Type 0 where
    no_elements : Elements S
    element : Rendered S → Elements S → Elements S

module _ {S : Type 0} where
  unfoldable mutual
    unfolding is_sensitive_key

    pub render_fields : Fields S → Entries S
    render_fields no_fields = no_entries
    render_fields (field key v fields) =
        let deep = render_value v in
        let rest = render_fields fields in
        entry key (if is_sensitive_key key then redacted else deep) rest

    pub render_value : Value S → Rendered S
    render_value (document fields) = map (render_fields fields)
    render_value (array items) = list (render_items items)
    render_value (code_with_scope code scope) = shown_code code scope
    render_value (scalar s) = shown s

    pub render_items : Items S → Elements S
    render_items no_items = no_elements
    render_items (item v items) = element (render_value v) (render_items items)
