-- ===== src/Tests/CompressTests.antt =====
-- The theorems on src/compress.c at concrete inputs, and runs of the negotiation.
use rpsiod.Prelude.{Bytes, codes, [], ◌∷◌, ◌++◌, ◌≡◌, ◌≢◌, ◌↔◌, ◌≤◌, refl, true, false, length}
use rpsiod.Util.Strings.{streq_ci}
use rpsiod.Compress.{
  accepts_gzip, accepts_encoding_token, accept_encoding_token_allowed, qvalue_is_zero,
}
use rpsiod.Compress.Store.{
  gzip_store, gzip_store-Stored, gzip_store-fits_iff, Stored, four_bytes, crc32_update, capacity,
}

gzip_store-Stored_example :
    (blocks : Bytes) × Stored blocks (codes "hello")
    × (gzip_store (codes "hello")
        ≡ 0x1f
          ∷ 0x8b
          ∷ 8
          ∷ 0
          ∷ 0
          ∷ 0
          ∷ 0
          ∷ 0
          ∷ 0
          ∷ 3
          ∷ (blocks ++ (four_bytes (crc32_update 0 (codes "hello")) ++ four_bytes 5)))
    × (crc32_update 0 (codes "123456789") ≡ 0xCBF43926)
gzip_store-Stored_example = gzip_store-Stored (codes "hello")

gzip_store-fits_iff_example : (length (gzip_store []) ≤ capacity 0) ↔ (◌≢◌ {A = Bytes} [] [])
gzip_store-fits_iff_example = gzip_store-fits_iff []

accepts-example : accepts_gzip (codes "br, gzip; q=0.5") ≡ true
unfolding accepts_gzip accepts_encoding_token accept_encoding_token_allowed qvalue_is_zero streq_ci
accepts-example = refl

refuses-example : accepts_gzip (codes "gzip;q=0.0, br") ≡ false
unfolding accepts_gzip accepts_encoding_token accept_encoding_token_allowed qvalue_is_zero streq_ci
refuses-example = refl
