-- ===== src/Mime/Table/EToK.antt =====
-- fs/mime-inference.cc: the pairs inserted for the extensions .el to .ksh, in order.
use ndnfs_port.Prelude.{String, List, [], ◌∷◌}

unfoldable pub e_to_k : List (String × String)
e_to_k =
    (".el", "text/x-script.elisp")
    ∷ (".elc", "application/x-bytecode.elisp (compiled elisp)")
    ∷ (".elc", "application/x-elc")
    ∷ (".env", "application/x-envoy")
    ∷ (".eps", "application/postscript")
    ∷ (".es", "application/x-esrehber")
    ∷ (".etx", "text/x-setext")
    ∷ (".evy", "application/envoy")
    ∷ (".evy", "application/x-envoy")
    ∷ (".exe", "application/octet-stream")
    ∷ (".f", "text/plain")
    ∷ (".f", "text/x-fortran")
    ∷ (".f77", "text/x-fortran")
    ∷ (".f90", "text/plain")
    ∷ (".f90", "text/x-fortran")
    ∷ (".fdf", "application/vnd.fdf")
    ∷ (".fif", "application/fractals")
    ∷ (".fif", "image/fif")
    ∷ (".fli", "video/fli")
    ∷ (".fli", "video/x-fli")
    ∷ (".flo", "image/florian")
    ∷ (".flx", "text/vnd.fmi.flexstor")
    ∷ (".fmf", "video/x-atomic3d-feature")
    ∷ (".for", "text/plain")
    ∷ (".for", "text/x-fortran")
    ∷ (".fpx", "image/vnd.fpx")
    ∷ (".fpx", "image/vnd.net-fpx")
    ∷ (".frl", "application/freeloader")
    ∷ (".funk", "audio/make")
    ∷ (".g", "text/plain")
    ∷ (".g3", "image/g3fax")
    ∷ (".gif", "image/gif")
    ∷ (".gl", "video/gl")
    ∷ (".gl", "video/x-gl")
    ∷ (".gsd", "audio/x-gsm")
    ∷ (".gsm", "audio/x-gsm")
    ∷ (".gsp", "application/x-gsp")
    ∷ (".gss", "application/x-gss")
    ∷ (".gtar", "application/x-gtar")
    ∷ (".gz", "application/x-compressed")
    ∷ (".gz", "application/x-gzip")
    ∷ (".gzip", "application/x-gzip")
    ∷ (".gzip", "multipart/x-gzip")
    ∷ (".h", "text/plain")
    ∷ (".h", "text/x-h")
    ∷ (".hdf", "application/x-hdf")
    ∷ (".help", "application/x-helpfile")
    ∷ (".hgl", "application/vnd.hp-hpgl")
    ∷ (".hh", "text/plain")
    ∷ (".hh", "text/x-h")
    ∷ (".hlb", "text/x-script")
    ∷ (".hlp", "application/hlp")
    ∷ (".hlp", "application/x-helpfile")
    ∷ (".hlp", "application/x-winhelp")
    ∷ (".hpg", "application/vnd.hp-hpgl")
    ∷ (".hpgl", "application/vnd.hp-hpgl")
    ∷ (".hqx", "application/binhex")
    ∷ (".hqx", "application/binhex4")
    ∷ (".hqx", "application/mac-binhex")
    ∷ (".hqx", "application/mac-binhex40")
    ∷ (".hqx", "application/x-binhex40")
    ∷ (".hqx", "application/x-mac-binhex40")
    ∷ (".hta", "application/hta")
    ∷ (".htc", "text/x-component")
    ∷ (".htm", "text/html")
    ∷ (".html", "text/html")
    ∷ (".htmls", "text/html")
    ∷ (".htt", "text/webviewhtml")
    ∷ (".htx", "text/html")
    ∷ (".ice", "x-conference/x-cooltalk")
    ∷ (".ico", "image/x-icon")
    ∷ (".idc", "text/plain")
    ∷ (".ief", "image/ief")
    ∷ (".iefs", "image/ief")
    ∷ (".iges", "application/iges")
    ∷ (".iges", "model/iges")
    ∷ (".igs", "application/iges")
    ∷ (".igs", "model/iges")
    ∷ (".ima", "application/x-ima")
    ∷ (".imap", "application/x-httpd-imap")
    ∷ (".inf", "application/inf")
    ∷ (".ins", "application/x-internett-signup")
    ∷ (".ip", "application/x-ip2")
    ∷ (".isu", "video/x-isvideo")
    ∷ (".it", "audio/it")
    ∷ (".iv", "application/x-inventor")
    ∷ (".ivr", "i-world/i-vrml")
    ∷ (".ivy", "application/x-livescreen")
    ∷ (".jam", "audio/x-jam")
    ∷ (".jav", "text/plain")
    ∷ (".jav", "text/x-java-source")
    ∷ (".java", "text/plain")
    ∷ (".java", "text/x-java-source")
    ∷ (".jcm", "application/x-java-commerce")
    ∷ (".jfif", "image/jpeg")
    ∷ (".jfif", "image/pjpeg")
    ∷ (".jfif-tbnl", "image/jpeg")
    ∷ (".jpe", "image/jpeg")
    ∷ (".jpe", "image/pjpeg")
    ∷ (".jpeg", "image/jpeg")
    ∷ (".jpeg", "image/pjpeg")
    ∷ (".jpg", "image/jpeg")
    ∷ (".jpg", "image/pjpeg")
    ∷ (".jps", "image/x-jps")
    ∷ (".js", "application/x-javascript")
    ∷ (".js", "application/javascript")
    ∷ (".js", "application/ecmascript")
    ∷ (".js", "text/javascript")
    ∷ (".js", "text/ecmascript")
    ∷ (".jut", "image/jutvision")
    ∷ (".kar", "audio/midi")
    ∷ (".kar", "music/x-karaoke")
    ∷ (".ksh", "application/x-ksh")
    ∷ (".ksh", "text/x-script.ksh")
    ∷ []
