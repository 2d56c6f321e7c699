-- ===== src/Names/Laws.antt =====
-- Reading the names back.
use irods_client_http_api.Prelude.{
  ◌≡◌, refl, sym, ap, ◌∙◌, inl, inr, Option, some, Bytes, text, if◌then◌else◌, Bool-cases,
}
use irods_client_http_api.Text.{bytes_eq, bytes_eq_iff}
use irods_client_http_api.Names.{
  Perms, null, read_metadata, read_object, read, create_metadata, modify_metadata, delete_metadata,
  create_object, modify_object, write, delete_object, own, to_permission_string, to_permission_enum,
  ObjectType, collection, data_object, none_type, not_found, special_collection, unknown,
  to_object_type_string, to_object_type_enum,
}

-- Two permissions of one name come out as the same.
abbrev pub without_alias : Perms → Perms
without_alias read_object = read
without_alias modify_object = write
without_alias p = p

-- Every permission is read back from its name, up to the two pairs that share a name.
pub to_permission_enum-to_permission_string :
    (p : Perms) → to_permission_enum (to_permission_string p) ≡ some (without_alias p)
unfolding to_permission_enum to_permission_string bytes_eq
to_permission_enum-to_permission_string null = refl
to_permission_enum-to_permission_string read_metadata = refl
to_permission_enum-to_permission_string read_object = refl
to_permission_enum-to_permission_string read = refl
to_permission_enum-to_permission_string create_metadata = refl
to_permission_enum-to_permission_string modify_metadata = refl
to_permission_enum-to_permission_string delete_metadata = refl
to_permission_enum-to_permission_string create_object = refl
to_permission_enum-to_permission_string modify_object = refl
to_permission_enum-to_permission_string write = refl
to_permission_enum-to_permission_string delete_object = refl
to_permission_enum-to_permission_string own = refl

some_injective : {A : Type 0} {a b : A} → some a ≡ some b → a ≡ b
some_injective e = cc e

-- One test of a chain: what it gives has the name that it tests for.
named :
    {A : Type 0} (name : A → Bytes) (s t : Bytes) (a b : A) (rest : Option A)
    → name a ≡ t
    → (if bytes_eq s t then some a else rest) ≡ some b
    → (rest ≡ some b → name b ≡ s)
    → name b ≡ s
named name s t a b rest own_name e otherwise = elim (Bool-cases (bytes_eq s t)) [
  | inl h ↦ ap name (sym (some_injective (rw h at e))) ∙ own_name ∙ sym ((bytes_eq_iff s t).0 h)
  | inr h ↦ otherwise (rw h at e)
]

-- A text that is read as an object type is the name of this type.
pub to_object_type_string-to_object_type_enum :
    (s : Bytes) (t : ObjectType) → to_object_type_enum s ≡ some t → to_object_type_string t ≡ s
unfolding to_object_type_enum to_object_type_string
to_object_type_string-to_object_type_enum s t e =
    named to_object_type_string s (text "collection") collection t _ refl e λ e1.
      named to_object_type_string s (text "data_object") data_object t _ refl e1 λ e2.
        named to_object_type_string s (text "none") none_type t _ refl e2 λ e3.
          named to_object_type_string s (text "not_found") not_found t _ refl e3 λ e4.
            named to_object_type_string s (text "special_collection") special_collection t _ refl e4
              λ e5. named to_object_type_string s (text "unknown") unknown t _ refl e5 λ e6. cc e6
