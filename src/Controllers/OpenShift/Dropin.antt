-- ===== src/Controllers/OpenShift/Dropin.antt =====
-- generateDropinConfig of controllers/openshift_controller.go: the CRI-O drop-in file, its text
-- put into a data URL by base64. Texts are the lists of their bytes; all of them are ASCII.
use kata_operator.Base.Text.{codes}
use kata_operator.Base.{
  ℕ, ◌+◌, ◌-◌, ◌*◌, ◌/◌, ◌%◌, String, List, [], ◌∷◌, ◌++◌, ltb, ◌==◌, nat_eq, if◌then◌else◌,
}

-- the template of the source, around the name of the runtime
dropin_text : String → List ℕ
unfolding codes
dropin_text runtime_name =
    codes "\n[crio.runtime]\n  manage_ns_lifecycle = true\n\n[crio.runtime.runtimes."
    ++ (codes runtime_name
        ++ codes
            "]\n  runtime_path = \"/usr/bin/containerd-shim-kata-v2\"\n  runtime_type = \"vm\"\n  runtime_root = \"/run/vc\"\n  \n[crio.runtime.runtimes.runc]\n  runtime_path = \"\"\n  runtime_type = \"oci\"\n  runtime_root = \"/run/runc\"\n")

-- the standard alphabet: A-Z a-z 0-9 + /
unfoldable pub base64_digit : ℕ → ℕ
base64_digit d =
    if ltb d 26
    then b'A' + d
    else if ltb d 52
    then b'a' + (d - 26)
    else if ltb d 62
    then b'0' + (d - 52)
    else if d == 62
    then b'+'
    else b'/'

-- encoding/base64, StdEncoding with its padding
unfoldable pub encode_to_string : List ℕ → List ℕ
unfolding base64_digit
encode_to_string [] = []
encode_to_string (a ∷ []) = base64_digit (a / 4) ∷ base64_digit (a % 4 * 16) ∷ b'=' ∷ b'=' ∷ []
encode_to_string (a ∷ b ∷ []) =
    base64_digit (a / 4)
    ∷ base64_digit (a % 4 * 16 + b / 16)
    ∷ base64_digit (b % 16 * 4)
    ∷ b'='
    ∷ []
encode_to_string (a ∷ b ∷ c ∷ rest) =
    base64_digit (a / 4)
    ∷ base64_digit (a % 4 * 16 + b / 16)
    ∷ base64_digit (b % 16 * 4 + c / 64)
    ∷ base64_digit (c % 64)
    ∷ encode_to_string rest

-- The handler's name is not used: the runtime is always "kata".
pub generate_dropin_config : String → List ℕ
unfolding dropin_text encode_to_string
generate_dropin_config handler_name = encode_to_string (dropin_text "kata")

-- the source of the file's contents
pub dropin_source : String → List ℕ
unfolding generate_dropin_config
dropin_source handler_name =
    codes "data:text/plain;charset=utf-8;base64," ++ generate_dropin_config handler_name
