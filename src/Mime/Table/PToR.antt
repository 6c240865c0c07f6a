-- ===== src/Mime/Table/PToR.antt =====
-- fs/mime-inference.cc: the pairs inserted for the extensions .p to .rv, in order.
use ndnfs_port.Prelude.{String, List, [], ◌∷◌}

unfoldable pub p_to_r : List (String × String)
p_to_r =
    (".p", "text/x-pascal")
    ∷ (".p10", "application/pkcs10")
    ∷ (".p10", "application/x-pkcs10")
    ∷ (".p12", "application/pkcs-12")
    ∷ (".p12", "application/x-pkcs12")
    ∷ (".p7a", "application/x-pkcs7-signature")
    ∷ (".p7c", "application/pkcs7-mime")
    ∷ (".p7c", "application/x-pkcs7-mime")
    ∷ (".p7m", "application/pkcs7-mime")
    ∷ (".p7m", "application/x-pkcs7-mime")
    ∷ (".p7r", "application/x-pkcs7-certreqresp")
    ∷ (".p7s", "application/pkcs7-signature")
    ∷ (".part", "application/pro_eng")
    ∷ (".pas", "text/pascal")
    ∷ (".pbm", "image/x-portable-bitmap")
    ∷ (".pcl", "application/vnd.hp-pcl")
    ∷ (".pcl", "application/x-pcl")
    ∷ (".pct", "image/x-pict")
    ∷ (".pcx", "image/x-pcx")
    ∷ (".pdb", "chemical/x-pdb")
    ∷ (".pdf", "application/pdf")
    ∷ (".pfunk", "audio/make")
    ∷ (".pfunk", "audio/make.my.funk")
    ∷ (".pgm", "image/x-portable-graymap")
    ∷ (".pgm", "image/x-portable-greymap")
    ∷ (".pic", "image/pict")
    ∷ (".pict", "image/pict")
    ∷ (".pkg", "application/x-newton-compatible-pkg")
    ∷ (".pko", "application/vnd.ms-pki.pko")
    ∷ (".pl", "text/plain")
    ∷ (".pl", "text/x-script.perl")
    ∷ (".plx", "application/x-pixclscript")
    ∷ (".pm", "image/x-xpixmap")
    ∷ (".pm", "text/x-script.perl-module")
    ∷ (".pm4", "application/x-pagemaker")
    ∷ (".pm5", "application/x-pagemaker")
    ∷ (".png", "image/png")
    ∷ (".pnm", "application/x-portable-anymap")
    ∷ (".pnm", "image/x-portable-anymap")
    ∷ (".pot", "application/mspowerpoint")
    ∷ (".pot", "application/vnd.ms-powerpoint")
    ∷ (".pov", "model/x-pov")
    ∷ (".ppa", "application/vnd.ms-powerpoint")
    ∷ (".ppm", "image/x-portable-pixmap")
    ∷ (".pps", "application/mspowerpoint")
    ∷ (".pps", "application/vnd.ms-powerpoint")
    ∷ (".ppt", "application/mspowerpoint")
    ∷ (".ppt", "application/powerpoint")
    ∷ (".ppt", "application/vnd.ms-powerpoint")
    ∷ (".ppt", "application/x-mspowerpoint")
    ∷ (".ppz", "application/mspowerpoint")
    ∷ (".pre", "application/x-freelance")
    ∷ (".prt", "application/pro_eng")
    ∷ (".ps", "application/postscript")
    ∷ (".psd", "application/octet-stream")
    ∷ (".pvu", "paleovu/x-pv")
    ∷ (".pwz", "application/vnd.ms-powerpoint")
    ∷ (".py", "text/x-script.phyton")
    ∷ (".pyc", "application/x-bytecode.python")
    ∷ (".qcp", "audio/vnd.qcelp")
    ∷ (".qd3", "x-world/x-3dmf")
    ∷ (".qd3d", "x-world/x-3dmf")
    ∷ (".qif", "image/x-quicktime")
    ∷ (".qt", "video/quicktime")
    ∷ (".qtc", "video/x-qtc")
    ∷ (".qti", "image/x-quicktime")
    ∷ (".qtif", "image/x-quicktime")
    ∷ (".ra", "audio/x-pn-realaudio")
    ∷ (".ra", "audio/x-pn-realaudio-plugin")
    ∷ (".ra", "audio/x-realaudio")
    ∷ (".ram", "audio/x-pn-realaudio")
    ∷ (".ras", "application/x-cmu-raster")
    ∷ (".ras", "image/cmu-raster")
    ∷ (".ras", "image/x-cmu-raster")
    ∷ (".rast", "image/cmu-raster")
    ∷ (".rexx", "text/x-script.rexx")
    ∷ (".rf", "image/vnd.rn-realflash")
    ∷ (".rgb", "image/x-rgb")
    ∷ (".rm", "application/vnd.rn-realmedia")
    ∷ (".rm", "audio/x-pn-realaudio")
    ∷ (".rmi", "audio/mid")
    ∷ (".rmm", "audio/x-pn-realaudio")
    ∷ (".rmp", "audio/x-pn-realaudio")
    ∷ (".rmp", "audio/x-pn-realaudio-plugin")
    ∷ (".rng", "application/ringing-tones")
    ∷ (".rng", "application/vnd.nokia.ringing-tone")
    ∷ (".rnx", "application/vnd.rn-realplayer")
    ∷ (".roff", "application/x-troff")
    ∷ (".rp", "image/vnd.rn-realpix")
    ∷ (".rpm", "audio/x-pn-realaudio-plugin")
    ∷ (".rt", "text/richtext")
    ∷ (".rt", "text/vnd.rn-realtext")
    ∷ (".rtf", "application/rtf")
    ∷ (".rtf", "application/x-rtf")
    ∷ (".rtf", "text/richtext")
    ∷ (".rtx", "application/rtf")
    ∷ (".rtx", "text/richtext")
    ∷ (".rv", "video/vnd.rn-realvideo")
    ∷ []
