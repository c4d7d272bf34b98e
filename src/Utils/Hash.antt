-- ===== src/Utils/Hash.antt =====
-- utils.go, Hash; handler.go and database.go compare hashed ids only.
use obligator.Base.{String}

-- fmt.Sprintf("%x", sha256(input))
abbrev pub hash_with : (String → String) → (String → String) → String → String
hash_with sha256 hex input = hex (sha256 input)
