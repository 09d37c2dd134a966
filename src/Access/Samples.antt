-- ===== src/Access/Samples.antt =====
-- internal/api: a small server for the tests.
use trust_proxy.Base.{String, false, [], Option, none, some, ◌==◌, if◌then◌else◌}
use trust_proxy.Throttle.{Throttle}
use trust_proxy.Users.{User}
use trust_proxy.Users.Accounts.{public}
use trust_proxy.Sessions.{Claims}
use trust_proxy.Access.{Request, Web}
use trust_proxy.Access.Guard.{Accounts, Server}

abbrev pub web : Web
web = record {
  pattern_of = λ method path.
      if path == "/api/users/7/apikeys" then "POST /api/users/{id}/apikeys" else "GET /api/status";
  escape = λ path. path;
  url_host = λ origin. if origin == "http://gw:8080" then some "GW:8080" else none;
  split_host_port = λ addr. none;
  is_loopback_ip = λ ip. ip == "127.0.0.1";
}

abbrev pub cleo : User
cleo = record {
  id = "7";
  username = "cleo";
  password_hash = "hash";
  role = "client";
  disabled = false;
  proxy_password = "";
  api_keys = [];
  created_at = "now";
  last_login_at = "";
  session_epoch = 2;
  password_generated = false;
}

abbrev pub claims : Claims
claims = record { subject = "7"; username = "cleo"; role = "client"; epoch = 2; expires = 90 }

abbrev pub read_session : String → Option Claims
read_session token = if token == "session" then some claims else none

abbrev pub accounts : Accounts
accounts = record {
  by_key = λ key. none;
  account = λ id. if id == "7" then some (public cleo) else none;
  is_empty = false;
}

abbrev pub server : Server
server = record { accounts = some accounts; verifier = some read_session; token = "" }

abbrev request : String → String → Request
request method path = record {
  method = method;
  path = path;
  escaped_path = path;
  host = "gw:8080";
  origin = "http://gw:8080";
  api_key = "";
  authorization = "";
  cookie = "session";
  remote_addr = "10.0.0.2:4000";
}

abbrev pub throttle : Throttle
throttle = record { capacity = 2; busy = 0; limit = 3; window = 60; seen = []; last_gc = 0 }

abbrev pub own_keys : Request
own_keys = request "POST" "/api/users/7/apikeys"

abbrev pub relayed_status : Request
relayed_status = request "GET" "/api/nodes/n1/status"
