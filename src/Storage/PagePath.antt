-- ===== src/Storage/PagePath.antt =====
-- `RangeCache::page_path` of storage/mod.rs, and the temporary file beside a page.
use thanos_datafusion_experi.Common.{ℕ, ◌+◌, ◌/◌, ◌%◌, ◌^◌, [], ◌∷◌, ◌++◌, ltb, if◌then◌else◌, take}
use thanos_datafusion_experi.Common.Text.{Bytes, Text, codes}
use thanos_datafusion_experi.BlockIndex.Paths.{join}
use thanos_datafusion_experi.Storage.Cache.{PageKey}

-- `u64::to_be_bytes`
unfoldable pub to_be_bytes : ℕ → Bytes
to_be_bytes n =
    n / 2 ^ 56 % 256
    ∷ n / 2 ^ 48 % 256
    ∷ n / 2 ^ 40 % 256
    ∷ n / 2 ^ 32 % 256
    ∷ n / 2 ^ 24 % 256
    ∷ n / 2 ^ 16 % 256
    ∷ n / 2 ^ 8 % 256
    ∷ n % 256
    ∷ []

-- What the hasher is given.
unfoldable pub digest_input : PageKey → Bytes
unfolding to_be_bytes
digest_input key = key.repository ++ (0 ∷ (key.path ++ to_be_bytes key.offset))

unfoldable pub hex_digit : ℕ → ℕ
hex_digit n = if ltb n 10 then 48 + n else 87 + n

-- `format!("{byte:02x}")` of each byte
unfoldable pub hex : Bytes → Text
unfolding hex_digit
hex [] = []
hex (b ∷ bytes) = hex_digit (b / 16) ∷ hex_digit (b % 16) ∷ hex bytes

-- `directory.join(&digest[..2]).join(digest)`, with the SHA-256 of the sha2 crate as a parameter.
unfoldable pub page_path : (Bytes → Bytes) → Text → PageKey → Text
unfolding digest_input hex join
page_path sha256 directory key =
    let digest = hex (sha256 (digest_input key)) in join (join directory (take 2 digest)) digest

-- `path.with_extension(format!("tmp-{}", std::process::id()))`; a digest has no extension.
unfoldable pub page_temporary_path : (Bytes → Bytes) → Text → Text → PageKey → Text
unfolding digest_input hex join
page_temporary_path sha256 directory process_id key =
    let digest = hex (sha256 (digest_input key)) in
    join (join directory (take 2 digest)) (digest ++ (codes ".tmp-" ++ process_id))
