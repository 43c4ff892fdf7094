-- ===== src/AuditLogs/Sanitize.antt =====
-- The sanitizer of an audit log's metadata: admin-dashboard/lib/admin/audit-logs-utils.ts.
use telecam.Prelude.{ℕ, suc, Bool, ◌&&◌, List, [], ◌∷◌, ◌++◌, map, any, ltb, if◌then◌else◌}
use telecam.Text.{Text, text, includes, utf16_length, ascii_lower, decimal}
use telecam.Json.Defs.{
  Json, undefined, null, boolean, number, string, array, object, Items, nil, cons, Fields, end,
  field, Engine, assign,
}
use telecam.Json.Case.{lower}

abbrev pub sensitive_key_parts : List Text
sensitive_key_parts = map text (
    "token" ∷ "secret" ∷ "password" ∷ "authorization" ∷ "cookie" ∷ "rtsp" ∷ "signed" ∷ "url"
    ∷ "credential" ∷ "access_token" ∷ "refresh_token" ∷ "jwt" ∷ "key" ∷ "hash" ∷ "proof_url"
    ∷ "playlist" ∷ "segment_path" ∷ [])

-- Eight bullets.
abbrev pub mask : Text
mask = text "••••••••"

-- `/token|secret|password|jwt|bearer/i`
abbrev secret_words : List Text
secret_words = map text ("token" ∷ "secret" ∷ "password" ∷ "jwt" ∷ "bearer" ∷ [])

abbrev has_secret_word : Text → Bool
has_secret_word value = any (includes (map ascii_lower value)) secret_words

-- `${key}[${index}]`
abbrev element_key : Text → ℕ → Text
element_key key index = key ++ (text "[" ++ (decimal index ++ text "]"))

abbrev pub or_null : {N : Type 0} → Fields N → Json N
or_null end = null
or_null (field k v fs) = object (field k v fs)

-- `Object.entries` of an array, from an index on
abbrev pub index_fields : {N : Type 0} → ℕ → Items N → Fields N
index_fields i nil = end
index_fields i (cons v vs) = field (decimal i) v (index_fields (suc i) vs)

module _ {N : Type 0} (js : Engine N) where
  unfoldable pub is_sensitive_metadata_key : Text → Bool
  unfolding lower includes
  is_sensitive_metadata_key key =
      let lowered = lower js key in any (includes lowered) sensitive_key_parts

  abbrev masked : Json N → Json N
  masked undefined = null
  masked null = null
  masked v = string mask

  abbrev sanitize_string : Text → Json N
  sanitize_string value =
      string (if has_secret_word value && ltb 12 (utf16_length value) then mask else value)

  -- `out[key] = nested`, if there is something in it
  abbrev pub assign_nested : Text → Fields N → Fields N → Fields N
  assign_nested key end out = out
  assign_nested key (field k v fs) out = assign key (object (field k v fs)) out

  unfoldable mutual
    pub sanitize_metadata_value : Text → Json N → Json N
    sanitize_metadata_value key (string s) =
        if is_sensitive_metadata_key key then string mask else sanitize_string s
    sanitize_metadata_value key (array vs) =
        let clean = sanitize_items key 0 vs in
        if is_sensitive_metadata_key key then string mask else array clean
    sanitize_metadata_value key (object fs) =
        let clean = sanitize_fields fs end in
        if is_sensitive_metadata_key key then string mask else or_null clean
    sanitize_metadata_value key undefined =
        if is_sensitive_metadata_key key then masked undefined else undefined
    sanitize_metadata_value key null = if is_sensitive_metadata_key key then masked null else null
    sanitize_metadata_value key (boolean b) =
        if is_sensitive_metadata_key key then masked (boolean b) else boolean b
    sanitize_metadata_value key (number n) =
        if is_sensitive_metadata_key key then masked (number n) else number n

    -- `value.map((item, index) => …)` from an index on
    pub sanitize_items : Text → ℕ → Items N → Items N
    sanitize_items key i nil = nil
    sanitize_items key i (cons v vs) =
        cons (sanitize_metadata_value (element_key key i) v) (sanitize_items key (suc i) vs)

    -- The value that the loop of `sanitizeMetadataRecord` assigns to a key that is not sensitive;
    -- an object is assigned only if something is left of it.
    pub sanitize_property : Text → Json N → Fields N → Fields N
    sanitize_property key (object fs) out = assign_nested key (sanitize_fields fs end) out
    sanitize_property key (array vs) out = assign key (array (sanitize_items key 0 vs)) out
    sanitize_property key undefined out = assign key undefined out
    sanitize_property key null out = assign key null out
    sanitize_property key (boolean b) out = assign key (boolean b) out
    sanitize_property key (number n) out = assign key (number n) out
    sanitize_property key (string s) out = assign key (string s) out

    -- The loop, from the properties assigned so far.
    pub sanitize_fields : Fields N → Fields N → Fields N
    sanitize_fields end out = out
    sanitize_fields (field key v fs) out = sanitize_fields fs (
        if is_sensitive_metadata_key key
        then assign key (string mask) out
        else sanitize_property key v out)

  -- `null` for what is no object, and where nothing is left. An array becomes an object of its
  -- indices.
  unfoldable pub sanitize_metadata_record : Json N → Json N
  unfolding sanitize_fields
  sanitize_metadata_record (object fs) = or_null (sanitize_fields fs end)
  sanitize_metadata_record (array vs) = or_null (sanitize_fields (index_fields 0 vs) end)
  sanitize_metadata_record v = null
