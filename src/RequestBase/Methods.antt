-- ===== src/RequestBase/Methods.antt =====
-- The two switches between the methods and libevent's commands.
use easy_http.Prelude.{◌≡◌, refl}
use easy_http.RequestBase.{
  RequestMethod, get, post, head, put, delete, options, trace, connect, patch,
}
use easy_http.RequestBase.Fields.{method_of_cmd}
use easy_http.RequestBase.Send.{cmd_of_method}

-- The command that a request is sent with is read back as its method.
pub method_of_cmd-cmd_of_method : (m : RequestMethod) → method_of_cmd (cmd_of_method m) ≡ m
unfolding method_of_cmd cmd_of_method
method_of_cmd-cmd_of_method get = refl
method_of_cmd-cmd_of_method post = refl
method_of_cmd-cmd_of_method head = refl
method_of_cmd-cmd_of_method put = refl
method_of_cmd-cmd_of_method delete = refl
method_of_cmd-cmd_of_method options = refl
method_of_cmd-cmd_of_method trace = refl
method_of_cmd-cmd_of_method connect = refl
method_of_cmd-cmd_of_method patch = refl
