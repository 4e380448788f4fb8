-- ===== src/Api.antt =====
-- The records that the backend sends, frontend/src/api/types.ts. A field that may be missing is
-- an option, and all ids are texts.
use head_control.Common.{Bool, List, Option}
use head_control.Text.{Text, codes}

pub record User : Type 0 where
  pub id : Text
  pub name : Text
  pub created_at : Option Text
  pub display_name : Option Text
  pub email : Option Text
  pub provider_id : Option Text
  pub provider : Option Text
  pub profile_pic_url : Option Text

pub record PreAuthKey : Type 0 where
  pub user : Option User
  pub id : Text
  pub key : Option Text
  pub reusable : Bool
  pub ephemeral : Bool
  pub used : Bool
  pub expiration : Option Text
  pub created_at : Option Text
  pub acl_tags : Option (List Text)

pub data RegisterMethod : Type 0 where
  unspecified : RegisterMethod
  auth_key : RegisterMethod
  cli : RegisterMethod
  oidc : RegisterMethod

abbrev pub method_text : RegisterMethod → Text
method_text RegisterMethod.unspecified = codes "REGISTER_METHOD_UNSPECIFIED"
method_text RegisterMethod.auth_key = codes "REGISTER_METHOD_AUTH_KEY"
method_text RegisterMethod.cli = codes "REGISTER_METHOD_CLI"
method_text RegisterMethod.oidc = codes "REGISTER_METHOD_OIDC"

pub record Node : Type 0 where
  pub id : Text
  pub machine_key : Option Text
  pub node_key : Option Text
  pub disco_key : Option Text
  pub ip_addresses : Option (List Text)
  pub name : Option Text
  pub user : Option User
  pub last_seen : Option Text
  pub expiry : Option Text
  pub pre_auth_key : Option PreAuthKey
  pub created_at : Option Text
  pub register_method : Option RegisterMethod
  pub given_name : Option Text
  pub online : Bool
  pub approved_routes : Option (List Text)
  pub available_routes : Option (List Text)
  pub subnet_routes : Option (List Text)
  pub tags : Option (List Text)
