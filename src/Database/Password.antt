-- ===== src/Database/Password.antt =====
-- internal/controller/database.go: `generatePassword` and `buildMySQLSecret`. The random source is
-- an argument: one read gives 24 bytes or an error. `base64.RawURLEncoding` is written out.
pub mod Letters
pub mod Laws
use Prim.Native.Nat.{◌/◌, ◌%◌, ◌*◌}
use Prim.Native.String.{slice}
use operator_wordpress.Base.{ℕ, suc, ◌+◌, String, ◌<>◌, List, [], ◌∷◌}
use operator_wordpress.Kube.{Kube}
use operator_wordpress.Kube.Workloads.{Secret}
use operator_wordpress.Kube.Outcome.{Answer, ok, err, Outcome, done, failed, wrapped}
use operator_wordpress.Api.{WordPress}
use operator_wordpress.Database.{mysql_secret}

abbrev pub alphabet : String
alphabet = "ABCDEFGHIJKLMNOPQRSTUVWXYZabcdefghijklmnopqrstuvwxyz0123456789-_"

-- The letter of a 6-bit value.
unfoldable pub letter : ℕ → String
letter i = slice alphabet i (suc i)

-- Three bytes make four letters; a remainder of one or two bytes makes two or three, unpadded.
unfoldable pub sextets : List ℕ → List ℕ
sextets [] = []
sextets (a ∷ []) = (a / 4) ∷ (a % 4 * 16) ∷ []
sextets (a ∷ b ∷ []) = (a / 4) ∷ (a % 4 * 16 + b / 16) ∷ (b % 16 * 4) ∷ []
sextets (a ∷ b ∷ c ∷ rest) =
    (a / 4) ∷ (a % 4 * 16 + b / 16) ∷ (b % 16 * 4 + c / 64) ∷ (c % 64) ∷ sextets rest

unfoldable pub letters : List ℕ → String
unfolding letter
letters [] = ""
letters (i ∷ is) = letter i <> letters is

unfoldable pub encode_to_string : List ℕ → String
unfolding letters sextets
encode_to_string bytes = letters (sextets bytes)

module _ {K : Kube} {W : Type 0} (read : ℕ → W → Answer K (List ℕ) × W) where
  unfoldable pub generate_password : W → Answer K String × W
  unfolding encode_to_string
  generate_password w =
      let (r, w') = read 24 w in
      elim r [ ok b ↦ (ok (encode_to_string b), w') | err e ↦ (err e, w') ]

  unfoldable pub build_mysql_secret : WordPress K → W → Outcome K (Secret K) × W
  unfolding generate_password mysql_secret
  build_mysql_secret wp w =
      let (root, w₁) = generate_password w in
      elim root [
        | err e ↦ (failed (wrapped "generate root password" e), w₁)
        | ok root_password ↦
            let (user, w₂) = generate_password w₁ in
            elim user [
              | err e ↦ (failed (wrapped "generate wordpress password" e), w₂)
              | ok wp_password ↦ (done (mysql_secret wp root_password wp_password), w₂)
            ]
      ]
