-- ===== src/Auth/Messages.antt =====
-- The requests and responses of src/rpc/auth.rs for authentication itself.
use etcd_client.Prelude.{none, String, Option}
use etcd_client.Rpc.{ResponseHeader, HeaderResponse}

abbrev pub AuthEnableOptions : Type 0
AuthEnableOptions = Unit

abbrev pub AuthEnableResponse : Type 0
AuthEnableResponse = HeaderResponse

abbrev pub AuthDisableOptions : Type 0
AuthDisableOptions = Unit

abbrev pub AuthDisableResponse : Type 0
AuthDisableResponse = HeaderResponse

pub record AuthenticateOptions : Type 0 where
  pub name : String
  pub password : String

abbrev pub new_authenticate : AuthenticateOptions
new_authenticate = record { name = ""; password = "" }

unfoldable pub authenticate_with_user : String → String → AuthenticateOptions → AuthenticateOptions
authenticate_with_user name password self = record self { name = name; password = password }

pub record AuthenticateResponse : Type 0 where
  pub header : Option ResponseHeader
  pub token : String

unfoldable pub authenticate_take_header :
    AuthenticateResponse → AuthenticateResponse × Option ResponseHeader
authenticate_take_header self = (record self { header = none }, self.header)
