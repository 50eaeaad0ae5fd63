-- ===== src/Config/Tests.antt =====
-- Levels of loggers read from texts.
use structlog.Common.{List, ◌≡◌, ◌∷◌, [], ℕ, refl, none, some, codes}
use structlog.Level.{Level, from_str, find_index}
use structlog.Config.{extract_kv, extract_key_vals, collect}
use structlog.Config.Pairs.{Padded, show_pairs, Plain, extract_key_vals-show_pairs}

-- The examples in the comments of the source.
pairs :
    (extract_kv b'=' (codes " key  =  val ") ≡ (codes "key", codes "val"))
    × (extract_kv b'=' (codes "key=") ≡ (codes "key", []))
    × (extract_kv b'=' (codes "val") ≡ ([], codes "val"))
unfolding extract_kv
pairs = (refl, refl, refl)

-- A global level, a level for a logger, and a name of no level.
levels :
    collect (extract_key_vals (codes "INFO,net=debug,disk=loud")) [] none
    ≡ ((codes "net", Level.debug) ∷ [], some Level.info)
unfolding collect extract_key_vals extract_kv from_str find_index
levels = refl

abbrev plain : List ℕ → Padded
plain text = record { before = []; text = text; after = [] }

-- " net =debug\t,disk=off,"
abbrev settings : List (Padded × Padded)
settings =
    (
      record { before = codes " "; text = codes "net"; after = codes " " },
      record { before = []; text = codes "debug"; after = b'\t' ∷ [] },
    )
    ∷ (plain (codes "disk"), plain (codes "off"))
    ∷ []

settings-Plain : Plain settings
settings-Plain =
    Plain.cons refl refl
      (record { blank_before = refl; blank_after = refl; starts_bare = refl; ends_bare = refl })
      (record { blank_before = refl; blank_after = refl; starts_bare = refl; ends_bare = refl })
      (Plain.cons refl refl
        (record { blank_before = refl; blank_after = refl; starts_bare = refl; ends_bare = refl })
        (record { blank_before = refl; blank_after = refl; starts_bare = refl; ends_bare = refl })
        Plain.nil)

extract_key_vals-show_pairs_example :
    extract_key_vals (show_pairs settings)
    ≡ (codes "disk", codes "off") ∷ (codes "net", codes "debug") ∷ []
extract_key_vals-show_pairs_example = extract_key_vals-show_pairs settings settings-Plain
