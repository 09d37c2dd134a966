-- ===== src/Users/Registry/History.antt =====
-- Sequences of operations on the registry of internal/users/store.go.
use trust_proxy.Base.{ℕ, String, Bool, List, [], ◌∷◌, Option, All}
use trust_proxy.Users.{File, Store, Write, reload}
use trust_proxy.Users.Accounts.{
  Draw, create, register, set_role, set_disabled, delete, set_password, mark_password_generated,
  set_proxy_password, set_allow_registration, authenticate,
}
use trust_proxy.Users.Keys.{delete_api_key, create_api_key, authenticate_api_key}
use trust_proxy.Users.Registry.Steps.{
  IsSound, IsSoundFile, reload-IsSound, set_role-IsSound, set_disabled-IsSound, delete-IsSound,
}
use trust_proxy.Users.Registry.AccountSteps.{
  create-IsSound, register-IsSound, set_password-IsSound, mark-IsSound, set_proxy_password-IsSound,
  set_allow_registration-IsSound, authenticate-IsSound,
}
use trust_proxy.Users.Registry.KeySteps.{
  delete_api_key-IsSound, create_api_key-IsSound, authenticate_api_key-IsSound,
}

-- A call of the store with its arguments. `read` is any of the readers, which only reload.
pub data Op : Type 0 where
  read : Op
  create_op : Draw → String → String → String → Op
  register_op : Draw → String → String → Op
  login : String → String → String → Op
  key_login : ℕ → String → Op
  password_op : Option String → String → String → Op
  mark_op : String → Op
  role_op : String → String → Op
  disable_op : String → Bool → Op
  proxy_op : String → String → Op
  registration_op : Bool → Op
  delete_op : String → Op
  create_key : String → String → ℕ → String → String → ℕ → Op
  delete_key : String → String → Op

-- A call, what stands at the path when it starts, and what becomes of its write.
pub record Call : Type 0 where
  pub op : Op
  pub seen : File
  pub disk : Write

module _ (hash_password : String → String → String) (verify_password : String → String → Bool)
    (hash_key : String → String) (format : ℕ → String) (parse : String → Option ℕ) where
  pub step : Op → File → Write → Store → Store
  step read seen disk s = reload seen s
  step (create_op draw name password role) seen disk s =
      (create hash_password seen disk draw name password role s).0
  step (register_op draw name password) seen disk s =
      (register hash_password seen disk draw name password s).0
  step (login now name password) seen disk s =
      (authenticate verify_password seen disk now name password s).0
  step (key_login now raw) seen disk s =
      (authenticate_api_key hash_key format parse seen disk now raw s).0
  step (password_op salt id password) seen disk s =
      (set_password hash_password seen disk salt id password s).0
  step (mark_op id) seen disk s = (mark_password_generated seen disk id s).0
  step (role_op id role) seen disk s = (set_role disk id role s).0
  step (disable_op id b) seen disk s = (set_disabled disk id b s).0
  step (proxy_op id password) seen disk s = (set_proxy_password seen disk id password s).0
  step (registration_op b) seen disk s = (set_allow_registration disk b s).0
  step (delete_op id) seen disk s = (delete disk id s).0
  step (create_key id token now user label ttl) seen disk s =
      (create_api_key hash_key format parse seen disk id token now user label ttl s).0
  step (delete_key user key) seen disk s = (delete_api_key seen disk user key s).0

  pub run : List Call → Store → Store
  run [] s = s
  run (c ∷ cs) s = run cs (step c.op c.seen c.disk s)

  step-IsSound :
      (op : Op) (seen : File) (disk : Write) (s : Store)
      → IsSoundFile seen.content
      → IsSound s
      → IsSound (step op seen disk s)
  unfolding step
  step-IsSound read seen disk s hf h = reload-IsSound seen s hf h
  step-IsSound (create_op draw name password role) seen disk s hf h =
      create-IsSound hash_password seen disk draw name password role s hf h
  step-IsSound (register_op draw name password) seen disk s hf h =
      register-IsSound hash_password seen disk draw name password s hf h
  step-IsSound (login now name password) seen disk s hf h =
      authenticate-IsSound verify_password seen disk now name password s hf h
  step-IsSound (key_login now raw) seen disk s hf h =
      authenticate_api_key-IsSound hash_key format parse seen disk now raw s hf h
  step-IsSound (password_op salt id password) seen disk s hf h =
      set_password-IsSound hash_password seen disk salt id password s hf h
  step-IsSound (mark_op id) seen disk s hf h = mark-IsSound seen disk id s hf h
  step-IsSound (role_op id role) seen disk s hf h = set_role-IsSound disk id role s h
  step-IsSound (disable_op id b) seen disk s hf h = set_disabled-IsSound disk id b s h
  step-IsSound (proxy_op id password) seen disk s hf h =
      set_proxy_password-IsSound seen disk id password s hf h
  step-IsSound (registration_op b) seen disk s hf h = set_allow_registration-IsSound disk b s h
  step-IsSound (delete_op id) seen disk s hf h = delete-IsSound disk id s h
  step-IsSound (create_key id token now user label ttl) seen disk s hf h =
      create_api_key-IsSound hash_key format parse seen disk id token now user label ttl s hf h
  step-IsSound (delete_key user key) seen disk s hf h =
      delete_api_key-IsSound seen disk user key s hf h

  -- From a registry that is empty or has an admin, and in which no name matches an earlier one, any
  -- sequence of calls leads to such a registry, provided that so are the documents that other
  -- processes write to the file in between: the last admin cannot be demoted or deleted.
  pub run-IsSound :
      (calls : List Call) (s : Store)
      → All (λ c. IsSoundFile c.seen.content) calls
      → IsSound s
      → IsSound (run calls s)
  unfolding run
  run-IsSound [] s hs h = h
  run-IsSound (c ∷ cs) s hs h =
      run-IsSound cs (step c.op c.seen c.disk s) hs.1 (step-IsSound c.op c.seen c.disk s hs.0 h)
