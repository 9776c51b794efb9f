-- ===== src/Config/Load/Laws.antt =====
-- What a configuration that was loaded is like.
use domainturva.Prelude.{
  String, Bytes, ◌≡◌, refl, sym, ◌∙◌, ap, subst, ◌↔◌, Option, none, some, Result, ok, err,
}
use domainturva.Config.{Config, apply_defaults}
use domainturva.Config.Environment.{Expanded, expanded, undefined, expand_env}
use domainturva.Config.Validate.{validate}
use domainturva.Config.Validity.{IsValid, validate-IsValid}
use domainturva.Config.Filled.{IsFilled, apply_defaults_lem}
use domainturva.Config.Load.{World, loaded, validated, after_decode, after_expand, after_read, load}

-- The file was read, its variables are defined, the text is YAML for `c`, and `c` is valid once its
-- defaults are filled in.
pub record IsLoaded (w : World) (path : String) (c : Config) : Type 0 where
  pub raw : Bytes
  pub text : Bytes
  pub decoded : Config
  pub was_read : w.read_file path ≡ ok raw
  pub was_expanded : expand_env w.lookup_env raw ≡ expanded text
  pub was_decoded : w.unmarshal text ≡ ok decoded
  pub is_completed : c ≡ apply_defaults decoded
  pub is_filled : IsFilled c
  pub is_valid : IsValid w.net c

validated-eq : (c d : Config) (o : Option _) → validated c o ≡ loaded d → (o ≡ none) × (d ≡ c)
validated-eq c d none h = (refl, cc)
validated-eq c d (some e) h = cc

after_decode-eq :
    (w : World) (r : Result Config) (c : Config)
    → after_decode w r ≡ loaded c
    → (decoded : Config) × (r ≡ ok decoded)
      × (c ≡ apply_defaults decoded)
      × (validate w.net c ≡ none)
after_decode-eq w (err e) c h = cc
after_decode-eq w (ok decoded) c h =
    let (fine, same) = validated-eq (apply_defaults decoded) c _ h in
    (decoded, refl, same, ap (validate w.net) same ∙ fine)

after_expand-eq :
    (w : World) (e : Expanded) (c : Config)
    → after_expand w e ≡ loaded c
    → (text : Bytes) × (e ≡ expanded text) × (after_decode w (w.unmarshal text) ≡ loaded c)
after_expand-eq w (expanded text) c h = (text, refl, h)
after_expand-eq w (undefined names) c h = cc

after_read-eq :
    (w : World) (r : Result Bytes) (c : Config)
    → after_read w r ≡ loaded c
    → (raw : Bytes) × (r ≡ ok raw) × (after_expand w (expand_env w.lookup_env raw) ≡ loaded c)
after_read-eq w (ok raw) c h = (raw, refl, h)
after_read-eq w (err e) c h = cc

-- Load returns a configuration exactly where the file was read, every variable that it refers to
-- is defined, the expanded text is YAML for some configuration, and the result is that one with
-- its defaults filled in, which leaves no zero value, and is valid.
pub load-IsLoaded :
    (w : World) (path : String) (c : Config) → (load w path ≡ loaded c) ↔ IsLoaded w path c
unfolding load
load-IsLoaded w path c = (
  λ h.
      let (raw, was_read, h1) = after_read-eq w (w.read_file path) c h in
      let (text, was_expanded, h2) = after_expand-eq w (expand_env w.lookup_env raw) c h1 in
      let (decoded, was_decoded, completed, fine) = after_decode-eq w (w.unmarshal text) c h2 in
      record {
        raw = raw;
        text = text;
        decoded = decoded;
        was_read = was_read;
        was_expanded = was_expanded;
        was_decoded = was_decoded;
        is_completed = completed;
        is_filled = subst IsFilled (sym completed) (apply_defaults_lem decoded decoded).0;
        is_valid = (validate-IsValid w.net c).0 fine;
      },
  λ l.
      let fine = (validate-IsValid w.net c).1 l.is_valid in
      rw (l.was_read, l.was_expanded, l.was_decoded, ← l.is_completed, fine) refl,
)
