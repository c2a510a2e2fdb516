-- ===== src/MimeTypes/Table/ToN.antt =====
-- libs/static_files/src/static_files_types.inl: the rows from m13 to nzb.
use Prim.Native.String.{String}
use mathlib.Core.List.{List, [], ◌∷◌}

unfoldable pub types_to_n : List (String × String)
types_to_n =
    ("m13", "application/x-msmediaview")
    ∷ ("m14", "application/x-msmediaview")
    ∷ ("m1v", "video/mpeg")
    ∷ ("m21", "application/mp21")
    ∷ ("m2a", "audio/mpeg")
    ∷ ("m2v", "video/mpeg")
    ∷ ("m3a", "audio/mpeg")
    ∷ ("m3u", "audio/x-mpegurl")
    ∷ ("m3u8", "application/vnd.apple.mpegurl")
    ∷ ("m4a", "audio/mp4")
    ∷ ("m4p", "application/mp4")
    ∷ ("m4u", "video/vnd.mpegurl")
    ∷ ("m4v", "video/x-m4v")
    ∷ ("ma\0", "application/mathematica")
    ∷ ("mads", "application/mads+xml")
    ∷ ("mag", "application/vnd.ecowin.chart")
    ∷ ("man", "text/troff")
    ∷ ("map", "application/json")
    ∷ ("mar", "application/octet-stream")
    ∷ ("mb\0", "application/mathematica")
    ∷ ("mbk", "application/vnd.mobius.mbk")
    ∷ ("mbox", "application/mbox")
    ∷ ("mc1", "application/vnd.medcalcdata")
    ∷ ("mcd", "application/vnd.mcd")
    ∷ ("md\0", "text/markdown")
    ∷ ("mdb", "application/x-msaccess")
    ∷ ("mdi", "image/vnd.ms-modi")
    ∷ ("me\0", "text/troff")
    ∷ ("mesh", "model/mesh")
    ∷ ("mets", "application/mets+xml")
    ∷ ("mfm", "application/vnd.mfmp")
    ∷ ("mft", "application/rpki-manifest")
    ∷ ("mgp", "application/vnd.osgeo.mapguide.package")
    ∷ ("mgz", "application/vnd.proteus.magazine")
    ∷ ("mid", "audio/midi")
    ∷ ("midi", "audio/midi")
    ∷ ("mie", "application/x-mie")
    ∷ ("mif", "application/vnd.mif")
    ∷ ("mime", "message/rfc822")
    ∷ ("mj2", "video/mj2")
    ∷ ("mjp2", "video/mj2")
    ∷ ("mjs", "application/javascript")
    ∷ ("mk3d", "video/x-matroska")
    ∷ ("mka", "audio/x-matroska")
    ∷ ("mkd", "text/x-markdown")
    ∷ ("mks", "video/x-matroska")
    ∷ ("mkv", "video/x-matroska")
    ∷ ("mlp", "application/vnd.dolby.mlp")
    ∷ ("mmd", "application/vnd.chipnuts.karaoke-mmd")
    ∷ ("mmf", "application/vnd.smaf")
    ∷ ("mml", "text/mathml")
    ∷ ("mmr", "image/vnd.fujixerox.edmics-mmr")
    ∷ ("mng", "video/x-mng")
    ∷ ("mny", "application/x-msmoney")
    ∷ ("mobi", "application/x-mobipocket-ebook")
    ∷ ("mods", "application/mods+xml")
    ∷ ("mov", "video/quicktime")
    ∷ ("mp2", "audio/mpeg")
    ∷ ("mp21", "application/mp21")
    ∷ ("mp2a", "audio/mpeg")
    ∷ ("mp3", "audio/mpeg")
    ∷ ("mp4", "video/mp4")
    ∷ ("mp4a", "audio/mp4")
    ∷ ("mp4s", "application/mp4")
    ∷ ("mp4v", "video/mp4")
    ∷ ("mpc", "application/vnd.mophun.certificate")
    ∷ ("mpd", "application/dash+xml")
    ∷ ("mpe", "video/mpeg")
    ∷ ("mpeg", "video/mpeg")
    ∷ ("mpg", "video/mpeg")
    ∷ ("mpg4", "video/mp4")
    ∷ ("mpga", "audio/mpeg")
    ∷ ("mpkg", "application/vnd.apple.installer+xml")
    ∷ ("mpm", "application/vnd.blueice.multipass")
    ∷ ("mpn", "application/vnd.mophun.application")
    ∷ ("mpp", "application/vnd.ms-project")
    ∷ ("mpt", "application/vnd.ms-project")
    ∷ ("mpy", "application/vnd.ibm.minipay")
    ∷ ("mqy", "application/vnd.mobius.mqy")
    ∷ ("mrc", "application/marc")
    ∷ ("mrcx", "application/marcxml+xml")
    ∷ ("ms\0", "text/troff")
    ∷ ("mseq", "application/vnd.mseq")
    ∷ ("msf", "application/vnd.epson.msf")
    ∷ ("msg", "application/vnd.ms-outlook")
    ∷ ("msh", "model/mesh")
    ∷ ("msi", "application/octet-stream")
    ∷ ("msl", "application/vnd.mobius.msl")
    ∷ ("msm", "application/octet-stream")
    ∷ ("msp", "application/octet-stream")
    ∷ ("msty", "application/vnd.muvee.style")
    ∷ ("mts", "model/vnd.mts")
    ∷ ("mus", "application/vnd.musician")
    ∷ ("mvb", "application/x-msmediaview")
    ∷ ("mwf", "application/vnd.mfer")
    ∷ ("mxf", "application/mxf")
    ∷ ("mxl", "application/vnd.recordare.musicxml")
    ∷ ("mxml", "application/xv+xml")
    ∷ ("mxs", "application/vnd.triscape.mxs")
    ∷ ("mxu", "video/vnd.mpegurl")
    ∷ ("n3\0", "text/n3")
    ∷ ("nb\0", "application/mathematica")
    ∷ ("nbp", "application/vnd.wolfram.player")
    ∷ ("nc\0", "application/x-netcdf")
    ∷ ("ncx", "application/x-dtbncx+xml")
    ∷ ("nfo", "text/x-nfo")
    ∷ ("nitf", "application/vnd.nitf")
    ∷ ("nlu", "application/vnd.neurolanguage.nlu")
    ∷ ("nml", "application/vnd.enliven")
    ∷ ("nnd", "application/vnd.noblenet-directory")
    ∷ ("nns", "application/vnd.noblenet-sealer")
    ∷ ("nnw", "application/vnd.noblenet-web")
    ∷ ("npx", "image/vnd.net-fpx")
    ∷ ("nsc", "application/x-conference")
    ∷ ("nsf", "application/vnd.lotus-notes")
    ∷ ("ntf", "application/vnd.nitf")
    ∷ ("nzb", "application/x-nzb")
    ∷ []
