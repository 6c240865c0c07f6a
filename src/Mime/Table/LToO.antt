-- ===== src/Mime/Table/LToO.antt =====
-- fs/mime-inference.cc: the pairs inserted for the extensions .la to .omcr, in order.
use ndnfs_port.Prelude.{String, List, [], ◌∷◌}

unfoldable pub l_to_o : List (String × String)
l_to_o =
    (".la", "audio/nspaudio")
    ∷ (".la", "audio/x-nspaudio")
    ∷ (".lam", "audio/x-liveaudio")
    ∷ (".latex", "application/x-latex")
    ∷ (".lha", "application/lha")
    ∷ (".lha", "application/octet-stream")
    ∷ (".lha", "application/x-lha")
    ∷ (".lhx", "application/octet-stream")
    ∷ (".list", "text/plain")
    ∷ (".lma", "audio/nspaudio")
    ∷ (".lma", "audio/x-nspaudio")
    ∷ (".log", "text/plain")
    ∷ (".lsp", "application/x-lisp")
    ∷ (".lsp", "text/x-script.lisp")
    ∷ (".lst", "text/plain")
    ∷ (".lsx", "text/x-la-asf")
    ∷ (".ltx", "application/x-latex")
    ∷ (".lzh", "application/octet-stream")
    ∷ (".lzh", "application/x-lzh")
    ∷ (".lzx", "application/lzx")
    ∷ (".lzx", "application/octet-stream")
    ∷ (".lzx", "application/x-lzx")
    ∷ (".m", "text/plain")
    ∷ (".m", "text/x-m")
    ∷ (".m1v", "video/mpeg")
    ∷ (".m2a", "audio/mpeg")
    ∷ (".m2v", "video/mpeg")
    ∷ (".m3u", "audio/x-mpequrl")
    ∷ (".man", "application/x-troff-man")
    ∷ (".map", "application/x-navimap")
    ∷ (".mar", "text/plain")
    ∷ (".mbd", "application/mbedlet")
    ∷ (".mc$", "application/x-magic-cap-package-1.0")
    ∷ (".mcd", "application/mcad")
    ∷ (".mcd", "application/x-mathcad")
    ∷ (".mcf", "image/vasa")
    ∷ (".mcf", "text/mcf")
    ∷ (".mcp", "application/netmc")
    ∷ (".me", "application/x-troff-me")
    ∷ (".mht", "message/rfc822")
    ∷ (".mhtml", "message/rfc822")
    ∷ (".mid", "application/x-midi")
    ∷ (".mid", "audio/midi")
    ∷ (".mid", "audio/x-mid")
    ∷ (".mid", "audio/x-midi")
    ∷ (".mid", "music/crescendo")
    ∷ (".mid", "x-music/x-midi")
    ∷ (".midi", "application/x-midi")
    ∷ (".midi", "audio/midi")
    ∷ (".midi", "audio/x-mid")
    ∷ (".midi", "audio/x-midi")
    ∷ (".midi", "music/crescendo")
    ∷ (".midi", "x-music/x-midi")
    ∷ (".mif", "application/x-frame")
    ∷ (".mif", "application/x-mif")
    ∷ (".mime", "message/rfc822")
    ∷ (".mime", "www/mime")
    ∷ (".mjf", "audio/x-vnd.audioexplosion.mjuicemediafile")
    ∷ (".mjpg", "video/x-motion-jpeg")
    ∷ (".mm", "application/base64")
    ∷ (".mm", "application/x-meme")
    ∷ (".mme", "application/base64")
    ∷ (".mod", "audio/mod")
    ∷ (".mod", "audio/x-mod")
    ∷ (".moov", "video/quicktime")
    ∷ (".mov", "video/quicktime")
    ∷ (".movie", "video/x-sgi-movie")
    ∷ (".mp2", "audio/mpeg")
    ∷ (".mp2", "audio/x-mpeg")
    ∷ (".mp2", "video/mpeg")
    ∷ (".mp2", "video/x-mpeg")
    ∷ (".mp2", "video/x-mpeq2a")
    ∷ (".mp3", "audio/mpeg3")
    ∷ (".mp3", "audio/x-mpeg-3")
    ∷ (".mp3", "video/mpeg")
    ∷ (".mp3", "video/x-mpeg")
    ∷ (".mpa", "audio/mpeg")
    ∷ (".mpa", "video/mpeg")
    ∷ (".mpc", "application/x-project")
    ∷ (".mpe", "video/mpeg")
    ∷ (".mpeg", "video/mpeg")
    ∷ (".mpg", "audio/mpeg")
    ∷ (".mpg", "video/mpeg")
    ∷ (".mpga", "audio/mpeg")
    ∷ (".mpp", "application/vnd.ms-project")
    ∷ (".mpt", "application/x-project")
    ∷ (".mpv", "application/x-project")
    ∷ (".mpx", "application/x-project")
    ∷ (".mrc", "application/marc")
    ∷ (".ms", "application/x-troff-ms")
    ∷ (".mv", "video/x-sgi-movie")
    ∷ (".my", "audio/make")
    ∷ (".mzz", "application/x-vnd.audioexplosion.mzz")
    ∷ (".nap", "image/naplps")
    ∷ (".naplps", "image/naplps")
    ∷ (".nc", "application/x-netcdf")
    ∷ (".ncm", "application/vnd.nokia.configuration-message")
    ∷ (".nif", "image/x-niff")
    ∷ (".niff", "image/x-niff")
    ∷ (".nix", "application/x-mix-transfer")
    ∷ (".nsc", "application/x-conference")
    ∷ (".nvd", "application/x-navidoc")
    ∷ (".o", "application/octet-stream")
    ∷ (".oda", "application/oda")
    ∷ (".omc", "application/x-omc")
    ∷ (".omcd", "application/x-omcdatamaker")
    ∷ (".omcr", "application/x-omcregerator")
    ∷ []
