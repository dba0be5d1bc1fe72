-- ===== src/Sync/Errors.antt =====
-- The errors of pkg/controller/distributedrediscluster/errors.go.
use k8s_cluster.Base.{Text, codes, ◌++◌}

pub data ErrorType : Type 0 where
  no_type requeue kubernetes redis cluster stop_retry : ErrorType

-- An error of another package, or a `customError`, each with its message.
pub data Error : Type 0 where
  plain : (message : Text) → Error
  custom : (error_type : ErrorType) (message : Text) → Error

unfoldable pub error_text : Error → Text
error_text (Error.plain m) = m
error_text (Error.custom t m) = m

unfoldable pub new_error : ErrorType → Text → Error
new_error t msg = Error.custom t msg

-- `errors.Wrapf` puts the message and a colon before the cause.
abbrev pub prefixed : Text → Error → Text
unfolding error_text
prefixed msg err = msg ++ (codes ": " ++ error_text err)

-- The method `Wrap` of an `ErrorType`.
unfoldable pub wrap : ErrorType → Error → Text → Error
unfolding prefixed
wrap t err msg = Error.custom t (prefixed msg err)

unfoldable pub get_type : Error → ErrorType
get_type (Error.plain m) = ErrorType.no_type
get_type (Error.custom t m) = t

-- The function `Wrap`, which keeps the type.
unfoldable pub rewrap : Error → Text → Error
unfolding get_type prefixed
rewrap err msg = Error.custom (get_type err) (prefixed msg err)
