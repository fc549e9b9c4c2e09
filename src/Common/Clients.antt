-- ===== src/Common/Clients.antt =====
-- The clients and the TLS configuration (pkg/common/config.go). An error of `get_client`,
-- `get_api_server_cert` and `config_tls` stands for a `glog.Fatal` with it, which ends the process.
use admission_controller.Base.{
  String, not, none, some, List, [], ◌∷◌, Bytes, errorf, Result, ok, err, concat, ◌==◌,
  if◌then◌else◌,
}
use admission_controller.Base.Dict
use admission_controller.Base.Dict.{Dict}

-- client-go's configurations and clients, crypto/x509 and crypto/tls
pub record Kube : Type 1 where
  pub Config : Type 0
  pub Client : Type 0
  pub CertPool : Type 0
  pub Certificate : Type 0
  pub in_cluster_config : Result Config
  pub build_config_from_flags : String → String → Result Config
  pub new_for_config : Config → Result Client
  -- the data of a config map, by its namespace and its name
  pub get_config_map : Client → String → String → Result (Dict String)
  -- how `%#v` prints such data
  pub show_data : Dict String → String
  -- a new pool with the certificates of a PEM text
  pub pool_of : String → CertPool
  pub x509_key_pair : Bytes → Bytes → Result Certificate

module _ (kube : Kube) where
  open kube use {Config, Client, CertPool, Certificate}

  -- tls.Config, with ClientAuth as the name of its constant
  pub record TlsConfig : Type 0 where
    pub certificates : List Certificate
    pub client_cas : CertPool
    pub client_auth : String

  unfoldable pub build_config : String → Result Config
  build_config kubeconfig =
      if not (kubeconfig == "")
      then kube.build_config_from_flags "" kubeconfig
      else kube.in_cluster_config

  unfoldable pub get_client_by_config : String → Result Client
  unfolding build_config
  get_client_by_config kubeconfig = elim (build_config kubeconfig) [
    | err e ↦ err e
    | ok config ↦ kube.new_for_config config
  ]

  unfoldable pub get_client : Result Client
  get_client = elim kube.in_cluster_config [
    | err e ↦ err e
    | ok config ↦ kube.new_for_config config
  ]

  unfoldable pub get_api_server_cert : Client → Result String
  get_api_server_cert clientset =
      elim (kube.get_config_map clientset "kube-system" "extension-apiserver-authentication") [
        | err e ↦ err e
        | ok config_data ↦ elim (Dict.lookup "client-ca-file" config_data) [
          | none ↦ err (
              errorf (
                concat (
                  "cannot find the ca.crt in the configmap, configMap.Data is "
                  ∷ kube.show_data config_data
                  ∷ [])))
          | some pem ↦ ok pem
        ]
      ]

  unfoldable pub config_tls : Client → Bytes → Bytes → Result TlsConfig
  unfolding get_api_server_cert
  config_tls clientset server_cert server_key = elim (get_api_server_cert clientset) [
    | err e ↦ err e
    | ok cert ↦ elim (kube.x509_key_pair server_cert server_key) [
      | err e ↦ err e
      | ok s_cert ↦ ok (record {
        certificates = s_cert ∷ [];
        client_cas = kube.pool_of cert;
        client_auth = "NoClientCert";
      })
    ]
  ]
