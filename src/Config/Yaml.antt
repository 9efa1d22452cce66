-- ===== src/Config/Yaml.antt =====
-- What the conversions of src/log.cc and src/tcpServer.cc ask of yaml-cpp, which is a parameter.
use proj.Base.{ℕ, Option, List}
use proj.Base.Text.{Text}

-- `YAML::Load`, none where it throws; a node that was made without a value; `node[key]`, none where it
-- throws and none inside where the node that it returns is not defined; `as<std::string>` and
-- `as<uint16_t>`, none where they throw; and the nodes that an iteration visits.
pub record Yaml (N : Type 0) : Type 0 where
  pub load : Text → Option N
  pub empty : N
  pub at : N → Text → Option (Option N)
  pub as_string : N → Option Text
  pub as_uint16 : N → Option ℕ
  pub items : N → List N
