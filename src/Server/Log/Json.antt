-- ===== src/Server/Log/Json.antt =====
-- What the logs rely on of serde_json for the record types: a value prints as one object on one line
-- of valid UTF-8, the text reads back, and no proper beginning of it is JSON.
use remote_workspace.Prelude.{String, Bytes, ◌≡◌, ◌≢◌, true, [], ◌∷◌, ◌++◌, inl, inr}
use remote_workspace.Prelude.Utf8.{is_utf8}
use remote_workspace.Server.Log.{Codec}
use remote_workspace.Server.Log.Lines.{OneLine}

abbrev pub object : Bytes → Bytes
object body = b'{' ∷ (body ++ b'}' ∷ [])

pub record IsJson {A : Type 0} (json : Codec A) : Type 0 where
  pub body : A → Bytes
  pub to_string_object : (v : A) → json.to_string v ≡ inl (object (body v))
  pub from_str_object : (v : A) → json.from_str (object (body v)) ≡ inl v
  pub one_line : (v : A) → OneLine (object (body v))
  pub utf8 : (v : A) → is_utf8 (object (body v)) ≡ true
  pub from_str_cut :
      (v : A) (q u : Bytes)
      → object (body v) ≡ q ++ u
      → u ≢ []
      → (e : String) × (json.from_str q ≡ inr e)
