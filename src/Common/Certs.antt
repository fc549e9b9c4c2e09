-- ===== src/Common/Certs.antt =====
-- pkg/common/certs.go: the files with the keys and certificates. A nil slice is [].
pub mod Cut
use admission_controller.Base.{
  ℕ, zero, suc, ◌-◌, String, List, [], ◌∷◌, ◌++◌, Bytes, Result, ok, err, length,
}

-- os.Open, the Read of an open file into a buffer of some length, which gives the bytes that it has
-- read, and path.Join
pub record Files : Type 1 where
  pub File : Type 0
  pub open_file : String → Result File
  pub read : File → ℕ → Result Bytes
  pub join : String → String → String

pub record CertsContainer : Type 0 where
  pub ca_key : Bytes
  pub ca_cert : Bytes
  pub server_key : Bytes
  pub server_cert : Bytes

-- `make([]byte, n)`
abbrev pub zeros : ℕ → Bytes
zeros zero = []
zeros (suc n) = 0 ∷ zeros n

abbrev pub buffer_size : ℕ
buffer_size = 5000

-- The buffer with the bytes that Read has put at its beginning.
abbrev pub filled : ℕ → Bytes → Bytes
filled n bytes = bytes ++ zeros (n - length bytes)

module _ (files : Files) where
  unfoldable pub read_file : String → Bytes
  read_file file_path = elim (files.open_file file_path) [
    | err e ↦ []
    | ok file ↦ elim (files.read file buffer_size) [
      | err e ↦ []
      | ok bytes ↦ filled buffer_size bytes
    ]
  ]

  unfoldable pub init_certs : String → CertsContainer
  unfolding read_file
  init_certs certs_dir = record {
    ca_key = read_file (files.join certs_dir "caKey.pem");
    ca_cert = read_file (files.join certs_dir "caCert.pem");
    server_key = read_file (files.join certs_dir "serverKey.pem");
    server_cert = read_file (files.join certs_dir "serverCert.pem");
  }
